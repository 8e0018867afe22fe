-- ===== src/Ioc/Thread/Asked.antt =====
-- What becomes of a thread that has been asked to exit: it takes what is queued and exits, if
-- nothing is cached; with an event cached that must not be dropped it never does.
use freely_craft_codes.Prelude.{
  ◌≡◌, refl, ap, ◌∙◌, sym, subst, true, false, Option, none, some, List, ◌∷◌, [], ok, ok-injective,
}
use freely_craft_codes.ThinkOs.{TosResult, timeout}
use freely_craft_codes.Ioc.Mailbox
use freely_craft_codes.Ioc.Mailbox.{EvtDesc, Mailbox, take_empty, take_full, after_take}
use freely_craft_codes.Ioc.Mailbox.Steps.{idle_of, after_take-Holds}
use freely_craft_codes.Ioc.Cache.{attempt, attempted, may_drop, kept}
use freely_craft_codes.Ioc.Cache.Contents
use freely_craft_codes.Ioc.Conles.{Suber}
use freely_craft_codes.Ioc.Thread.{
  Point, looking, replaying, exited, is_idle, replay, point_after, answer_while, Step, looks,
  caches, returns, replays, posts, told, ◌⟶*◌, here, onward, run_alone, alone,
}
use freely_craft_codes.Ioc.Thread.Moves.{look_exits, look_takes, replay_nothing, replay_offers}

-- The thread has taken what was queued.
abbrev pub emptied : Suber → Option EvtDesc → Suber
emptied s none = s
emptied s (some desc) = record s { mailbox = after_take s.mailbox }

-- A thread that was asked to exit, whose cache is empty and whose callback caches nothing, exits
-- within four steps: it calls back with the event that is queued, if there is one, and takes it.
pub run_alone-exits :
    (s : Suber) (held : Option EvtDesc)
    → s.should_exit ≡ true
    → Mailbox.Holds s.mailbox held
    → Contents.Holds s.cache []
    → run_alone 4 (looking, s) ≡ ok (exited, emptied s held)
unfolding run_alone alone
run_alone-exits s none e box store = rw (look_exits s e (idle_of s.mailbox none box)) refl
run_alone-exits s (some desc) e box store =
    let t : Suber = record s { mailbox = after_take s.mailbox } in
    let idle : is_idle t ≡ true = idle_of t.mailbox none (after_take-Holds desc s.mailbox box) in
    rw (look_takes s desc box, replay_nothing (λ desc. timeout) t idle store, look_exits t e idle)
      refl

-- In the loop that ends a round, asked to exit, with this event first in the cache.
record IsStuck (desc : EvtDesc) (state : Point × Suber) : Type 0 where
  at : state.0 ≡ replaying
  asked : state.1.should_exit ≡ true
  idle : is_idle state.1 ≡ true
  rest : List EvtDesc
  store : Contents.Holds state.1.cache (desc ∷ rest)

timeout_keeps : (desc : EvtDesc) → may_drop desc ≡ false → attempt timeout desc ≡ kept
timeout_keeps desc f = rw f refl

replay_keeps :
    (s : Suber) (r : TosResult) (desc : EvtDesc)
    → may_drop desc ≡ false
    → IsStuck desc (replaying, s)
    → replay (answer_while s.should_exit r) s ≡ ok (replaying, s)
replay_keeps s r desc f v =
    let offered = replay_offers (answer_while s.should_exit r) s desc v.rest v.idle v.store in
    let refused : answer_while s.should_exit r desc ≡ timeout =
      ap (λ b. answer_while b r desc) v.asked in
    let stays : attempt (answer_while s.should_exit r desc) desc ≡ kept =
      ap (λ a. attempt a desc) refused ∙ timeout_keeps desc f in
    offered ∙ ap (λ a. ok (point_after a, record s { cache = attempted a s.cache })) stays

Step-IsStuck :
    (desc : EvtDesc) {a b : Point × Suber}
    → may_drop desc ≡ false
    → Step a b
    → IsStuck desc a
    → IsStuck desc b
Step-IsStuck desc f (looks p) v = cc
Step-IsStuck desc f (caches d p) v = cc
Step-IsStuck desc f returns v = cc
Step-IsStuck desc f (replays {s} r p) v =
    subst (IsStuck desc) (ok-injective (sym (replay_keeps s r desc f v) ∙ p)) v
Step-IsStuck desc f (posts d e q) v = cc
Step-IsStuck desc f (told {p} {s}) v = record {
  at = v.at;
  asked = refl;
  idle = v.idle;
  rest = v.rest;
  store = v.store;
}

steps-IsStuck :
    (desc : EvtDesc) {a b : Point × Suber}
    → may_drop desc ≡ false
    → a ⟶* b
    → IsStuck desc a
    → IsStuck desc b
steps-IsStuck desc f here v = v
steps-IsStuck desc f (onward step steps) v = steps-IsStuck desc f steps (Step-IsStuck desc f step v)

-- A thread that is asked to exit while it goes round its last loop, with nothing queued and an event
-- in its cache that must not be dropped, stays in that loop whatever happens: it never exits.
pub asked_with_cached :
    (s t : Suber) (p : Point) (desc : EvtDesc) (rest : List EvtDesc)
    → s.should_exit ≡ true
    → is_idle s ≡ true
    → Contents.Holds s.cache (desc ∷ rest)
    → may_drop desc ≡ false
    → (replaying, s) ⟶* (p, t)
    → p ≡ replaying
asked_with_cached s t p desc rest e i store f steps =
    (steps-IsStuck desc f steps
      (record { at = refl; asked = e; idle = i; rest = rest; store = store })).at
