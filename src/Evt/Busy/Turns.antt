-- ===== src/Evt/Busy/Turns.antt =====
-- Runs of the manager: posts and rounds of the thread in any order.
use freely_craft_codes.Prelude.{
  ℕ, ◌≡◌, refl, sym, ap, ◌∙◌, Option, List, ◌∷◌, ◌++◌, [], append_assoc, Run, ok, fault, ◌>>=◌,
  if◌then◌else◌, Bool-cases, inl, inr,
}
use freely_craft_codes.ThinkOs.{TosResult, is_success}
use freely_craft_codes.Evt.Types.{EvtDesc}
use freely_craft_codes.Evt.Slots.{Slots}
use freely_craft_codes.Evt.Psdb.Rows.{Row}
use freely_craft_codes.Evt.Psdb.Dispatch.{CbCall}
use freely_craft_codes.Evt.Manager.{Manager}
use freely_craft_codes.Evt.Manager.Interface.{post_evt}
use freely_craft_codes.Evt.Manager.Events.{calls_in}
use freely_craft_codes.Evt.Busy.{Posts, Heard, process_busy}
use freely_craft_codes.Evt.Busy.Round.{Fits}

-- The events that posts accepted, as they stand in the queue.
abbrev pub accepted : List (TosResult × EvtDesc) → List EvtDesc
accepted [] = []
accepted ((r, desc) ∷ rs) = if is_success r then desc ∷ accepted rs else accepted rs

pub accepted-append :
    (rs ss : List (TosResult × EvtDesc)) → accepted (rs ++ ss) ≡ accepted rs ++ accepted ss
accepted-append [] ss = refl
accepted-append ((r, desc) ∷ rs) ss = elim (Bool-cases (is_success r)) [
  | inl e ↦ rw (e, accepted-append rs ss) refl
  | inr e ↦ rw (e, accepted-append rs ss) refl
]

-- The callbacks for a list of events.
abbrev pub calls_of : Option (Slots Row) → List EvtDesc → List CbCall
calls_of rows [] = []
calls_of rows (desc ∷ descs) = calls_in desc rows ++ calls_of rows descs

pub calls_of-append :
    (rows : Option (Slots Row)) (xs ys : List EvtDesc)
    → calls_of rows (xs ++ ys) ≡ calls_of rows xs ++ calls_of rows ys
calls_of-append rows [] ys = refl
calls_of-append rows (x ∷ xs) ys =
    ap (λ zs. calls_in x rows ++ zs) (calls_of-append rows xs ys)
    ∙ sym (append_assoc (calls_in x rows) (calls_of rows xs) (calls_of rows ys))

-- What clients and the thread do, in the order in which they get the lock of the queue: a post, or a
-- round with the posts during its callbacks.
pub data Turn : Type 0 where
  posts : ℕ → EvtDesc → Turn
  rounds : Posts → Turn

unfoldable pub run_turns : List Turn → Manager → Run Heard
run_turns [] m = ok ([], [], m)
run_turns (posts p desc ∷ turns) m = do
  posted ← post_evt p desc m
  rest ← run_turns turns posted.2
  ok (rest.0, (posted.0, posted.1) ∷ rest.1, rest.2)
run_turns (rounds during ∷ turns) m = do
  done ← process_busy during m
  rest ← run_turns turns done.2
  ok (done.0 ++ rest.0, done.1 ++ rest.1, rest.2)

-- What comes after a part of a run.
abbrev pub After : {A : Type 0} → Run A → (A → Type 0) → Type 0
After (ok a) P = P a
After fault P = Unit

-- The posts during each round fit, on the manager that the round finds.
abbrev pub AllFit : List Turn → Manager → Type 0
AllFit [] m = Unit
AllFit (posts p desc ∷ turns) m = After (post_evt p desc m) (λ r. AllFit turns r.2)
AllFit (rounds during ∷ turns) m =
    Fits during m × After (process_busy during m) (λ r. AllFit turns r.2)
