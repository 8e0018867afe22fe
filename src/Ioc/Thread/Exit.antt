-- ===== src/Ioc/Thread/Exit.antt =====
-- When the thread of a subscriber exits.
use freely_craft_codes.Prelude.{
  ◌≡◌, refl, sym, ap, subst, ◌∙◌, inl, inr, true, false, Bool-cases, Option, none, some, List, ◌∷◌,
  ◌++◌, [], length, Run, ok, ok-injective,
}
use freely_craft_codes.ThinkOs.{TosResult}
use freely_craft_codes.Ioc.Mailbox
use freely_craft_codes.Ioc.Mailbox.{
  EvtDesc, Mailbox, nothing, one, take_empty, take_full, after_take,
}
use freely_craft_codes.Ioc.Mailbox.Steps.{idle_of, after_take-Holds, try_post-Holds, let_in}
use freely_craft_codes.Ioc.Cache.{Attempt, sent, kept, dropped, attempt, attempted, cached_num}
use freely_craft_codes.Ioc.Cache.Contents
use freely_craft_codes.Ioc.Cache.Contents.{
  cached_num_of, replay_empty, replay_first, attempted-Holds, left_after, post_cached-Holds,
}
use freely_craft_codes.Ioc.Conles.{Suber}
use freely_craft_codes.Ioc.Thread.{
  Point, looking, calling, replaying, exited, aborted, is_idle, look, replay, point_after,
  answer_while, Step, looks, caches, returns, replays, posts, told, ◌⟶*◌, here, onward,
}
use freely_craft_codes.Ioc.Thread.Moves.{
  look_exits, look_waits, look_takes, replay_busy, replay_nothing, replay_offers,
}

-- Nothing is left behind: an idle thread that looks at its queue has nothing cached, and one that
-- has exited was asked to, with nothing queued and nothing cached.
abbrev pub IsClean : Point → Suber → List EvtDesc → Type 0
IsClean looking s cached = is_idle s ≡ true → cached ≡ []
IsClean exited s cached = (s.should_exit ≡ true) × (is_idle s ≡ true) × (cached ≡ [])
IsClean (calling desc) s cached = Unit
IsClean replaying s cached = Unit
IsClean aborted s cached = Unit

pub record IsSound (state : Point × Suber) : Type 0 where
  pub held : Option EvtDesc
  pub cached : List EvtDesc
  pub box : Mailbox.Holds state.1.mailbox held
  pub store : Contents.Holds state.1.cache cached
  pub clean : IsClean state.0 state.1 cached

busy : (s : Suber) → is_idle s ≡ false → {cached : List EvtDesc} → is_idle s ≡ true → cached ≡ []
busy s b i = cc

look-IsSound :
    (s : Suber) → IsSound (looking, s) → (next : Point × Suber) × (look s ≡ ok next) × IsSound next
look-IsSound s v = by_held v.held v.box
  where
    by_held :
        (held : Option EvtDesc)
        → Mailbox.Holds s.mailbox held
        → (next : Point × Suber) × (look s ≡ ok next) × IsSound next
    by_held none box = elim (Bool-cases s.should_exit) [
      | inl e ↦ (
        (exited, s),
        look_exits s e (idle_of s.mailbox none box),
        record {
          held = none;
          cached = v.cached;
          box = box;
          store = v.store;
          clean = (e, idle_of s.mailbox none box, v.clean (idle_of s.mailbox none box));
        },
      )
      | inr e ↦ ((looking, s), look_waits s e (idle_of s.mailbox none box), v)
    ]
    by_held (some desc) box = (
      (calling desc, record s { mailbox = after_take s.mailbox }),
      look_takes s desc box,
      record {
        held = none;
        cached = v.cached;
        box = after_take-Holds desc s.mailbox box;
        store = v.store;
        clean = tt;
      },
    )

after_attempt :
    (a : Attempt) (desc : EvtDesc) (cached : List EvtDesc) (s : Suber) (held : Option EvtDesc)
    → Mailbox.Holds s.mailbox held
    → Contents.Holds s.cache (desc ∷ cached)
    → IsSound (point_after a, record s { cache = attempted a s.cache })
after_attempt a desc cached s held box store = record {
  held = held;
  cached = left_after a desc cached;
  box = box;
  store = attempted-Holds a desc s.cache cached store;
  clean = anywhere a;
}
  where
    anywhere :
        (a : Attempt)
        → IsClean
            (point_after a)
            (record s { cache = attempted a s.cache })
            (left_after a desc cached)
    anywhere sent = tt
    anywhere kept = tt
    anywhere dropped = tt

replay-IsSound :
    (answer : EvtDesc → TosResult) (s : Suber)
    → IsSound (replaying, s)
    → (next : Point × Suber) × (replay answer s ≡ ok next) × IsSound next
replay-IsSound answer s v = elim (Bool-cases (is_idle s)) [
  | inr b ↦ (
    (looking, s),
    replay_busy answer s b,
    record { held = v.held; cached = v.cached; box = v.box; store = v.store; clean = busy s b },
  )
  | inl i ↦ by_cached i v.cached v.store
]
  where
    by_cached :
        is_idle s ≡ true
        → (cached : List EvtDesc) → Contents.Holds s.cache cached
        → (next : Point × Suber) × (replay answer s ≡ ok next) × IsSound next
    by_cached i [] store = (
      (looking, s),
      replay_nothing answer s i store,
      record { held = v.held; cached = []; box = v.box; store = store; clean = λ i. refl },
    )
    by_cached i (desc ∷ cached) store =
        let a = attempt (answer desc) desc in
        (
          (point_after a, record s { cache = attempted a s.cache }),
          replay_offers answer s desc cached i store,
          after_attempt a desc cached s v.held v.box store,
        )

-- The one next state that a function of the thread gives.
same_next :
    {r : Run (Point × Suber)} {next : Point × Suber}
    → ((n : Point × Suber) × (r ≡ ok n) × IsSound n)
    → r ≡ ok next
    → IsSound next
same_next (n, e, v) p = subst IsSound (ok-injective (sym e ∙ p)) v

posted-IsClean :
    (p : Point) (s : Suber) (m : Mailbox) (cached : List EvtDesc) (d : EvtDesc)
    → s.should_exit ≡ false
    → Mailbox.Holds m (some d)
    → IsClean p s cached
    → IsClean p (record s { mailbox = m }) cached
posted-IsClean looking s m cached d e box clean =
    busy (record s { mailbox = m }) (idle_of m (some d) box)
posted-IsClean exited s m cached d e box (asked, i, c) = cc
posted-IsClean (calling desc) s m cached d e box clean = tt
posted-IsClean replaying s m cached d e box clean = tt
posted-IsClean aborted s m cached d e box clean = tt

told-IsClean :
    (p : Point) (s : Suber) (cached : List EvtDesc)
    → IsClean p s cached
    → IsClean p (record s { should_exit = true }) cached
told-IsClean looking s cached clean = clean
told-IsClean exited s cached (asked, i, c) = (refl, i, c)
told-IsClean (calling desc) s cached clean = tt
told-IsClean replaying s cached clean = tt
told-IsClean aborted s cached clean = tt

Step-IsSound : {a b : Point × Suber} → Step a b → IsSound a → IsSound b
Step-IsSound (looks {s} p) v = same_next (look-IsSound s v) p
Step-IsSound (caches {d} {s} {r} {c} desc p) v =
    let store = post_cached-Holds desc s.cache c r v.cached v.store p in
    record {
      held = v.held;
      cached = v.cached ++ let_in r desc;
      box = v.box;
      store = store;
      clean = tt;
    }
Step-IsSound returns v = record {
  held = v.held;
  cached = v.cached;
  box = v.box;
  store = v.store;
  clean = tt;
}
Step-IsSound (replays {s} r p) v = same_next (replay-IsSound (answer_while s.should_exit r) s v) p
Step-IsSound (posts {p} {s} {r} {m} desc e q) v =
    let (d, box, held_now) = try_post-Holds desc s.mailbox m r v.held v.box q in
    record {
      held = some d;
      cached = v.cached;
      box = box;
      store = v.store;
      clean = posted-IsClean p s m v.cached d e box v.clean;
    }
Step-IsSound (told {p} {s}) v = record {
  held = v.held;
  cached = v.cached;
  box = v.box;
  store = v.store;
  clean = told-IsClean p s v.cached v.clean;
}

steps-IsSound : {a b : Point × Suber} → a ⟶* b → IsSound a → IsSound b
steps-IsSound here v = v
steps-IsSound (onward step steps) v = steps-IsSound steps (Step-IsSound step v)

-- Whatever the thread, its callback and other threads do, in any order, from a sound subscriber:
-- when the thread has exited it was asked to, its queue is empty and so is its cache.
pub exit_leaves_nothing :
    (s t : Suber)
    → IsSound (looking, s)
    → (looking, s) ⟶* (exited, t)
    → (t.should_exit ≡ true) × (is_idle t ≡ true) × (cached_num t.cache ≡ 0)
exit_leaves_nothing s t v steps =
    let last = steps-IsSound steps v in
    let (asked, idle, empty) = last.clean in
    (asked, idle, cached_num_of t.cache last.cached last.store ∙ ap length empty)
