-- ===== src/Evt/Queue/Fifo.antt =====
-- What a queue promises: a bounded first-in first-out list that numbers what it accepts.
use freely_craft_codes.Prelude.{
  ℕ, ◌+◌, Option, none, some, List, [], ◌∷◌, ◌++◌, length, ◌==◌, if◌then◌else◌,
}
use freely_craft_codes.ThinkOs.{TosResult, success, too_many_pubed_events, u32}
use freely_craft_codes.Evt.Types.{EvtDesc}
use freely_craft_codes.Evt.Queue.{stamp}

pub record Fifo : Type 0 where
  pub depth : ℕ
  pub next_seq : ℕ
  pub waiting : List EvtDesc

unfoldable pub post : ℕ → EvtDesc → Fifo → TosResult × EvtDesc × Fifo
post evt_puber_id desc f =
    if length f.waiting == f.depth then (too_many_pubed_events, desc, f) else (
      success,
      stamp evt_puber_id f.next_seq desc,
      record f {
        next_seq = u32 (f.next_seq + 1);
        waiting = f.waiting ++ stamp evt_puber_id f.next_seq desc ∷ [];
      },
    )

unfoldable pub take_first : ℕ → ℕ → List EvtDesc → Option (EvtDesc × Fifo)
take_first depth next_seq [] = none
take_first depth next_seq (desc ∷ rest) =
    some (desc, record { depth = depth; next_seq = next_seq; waiting = rest })

unfoldable pub take : Fifo → Option (EvtDesc × Fifo)
unfolding take_first
take f = take_first f.depth f.next_seq f.waiting

-- What is asked of a queue, and what each call gives back: a post its result and the number that the
-- event got, a take the event, if there is one.
pub data Call : Type 0 where
  posts : ℕ → EvtDesc → Call
  takes : Call

pub data Reply : Type 0 where
  posted : TosResult → EvtDesc → Reply
  taken : Option EvtDesc → Reply

-- The replies to a sequence of calls.
unfoldable pub run : List Call → Fifo → List Reply
run [] f = []
run (posts p desc ∷ calls) f = let (r, desc', f') = post p desc f in posted r desc' ∷ run calls f'
run (takes ∷ calls) f = elim (take f) [
  | none ↦ taken none ∷ run calls f
  | some (desc, f') ↦ taken (some desc) ∷ run calls f'
]
