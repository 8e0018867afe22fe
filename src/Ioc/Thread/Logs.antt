-- ===== src/Ioc/Thread/Logs.antt =====
-- What steps of a thread put into its queue and its cache, and what they take out.
use freely_craft_codes.Prelude.{
  ◌≡◌, sym, ap, ◌∙◌, Option, none, some, List, ◌∷◌, ◌++◌, [], append_assoc, append-nil, Run, ok,
  fault, if◌then◌else◌,
}
use freely_craft_codes.ThinkOs.{TosResult}
use freely_craft_codes.Ioc.Mailbox
use freely_craft_codes.Ioc.Mailbox.{EvtDesc, Mailbox, nothing, one, after_take}
use freely_craft_codes.Ioc.Mailbox.Steps.{listed, let_in}
use freely_craft_codes.Ioc.Cache.{Cache, Attempt, sent, kept, dropped, replay_cached}
use freely_craft_codes.Ioc.Cache.Contents
use freely_craft_codes.Ioc.Cache.Contents.{
  left_after, attempted-Holds, post_cached-Holds, replay_empty, replay_first,
}
use freely_craft_codes.Ioc.Conles.{Suber}
use freely_craft_codes.Ioc.Thread.{
  Point, calling, is_idle, answer_while, Step, looks, caches, replays, posts, ◌⟶*◌, here, onward,
}

-- The event that others queue in a step, the one that the thread hands to its callback, the one that
-- the callback caches, and the one that leaves the cache, posted again or dropped.
abbrev pub queued_by : (a b : Point × Suber) → Step a b → List EvtDesc
queued_by _ _ (posts {p} {s} {r} {m} desc e q) = let_in r desc
queued_by _ _ _ = []

abbrev pub started : Point → List EvtDesc
started (calling desc) = desc ∷ []
started _ = []

abbrev pub called_by : (a b : Point × Suber) → Step a b → List EvtDesc
called_by _ _ (looks {s} {next} p) = started next.0
called_by _ _ _ = []

abbrev pub cached_by : (a b : Point × Suber) → Step a b → List EvtDesc
cached_by _ _ (caches {d} {s} {r} {c} desc p) = let_in r desc
cached_by _ _ _ = []

abbrev pub gone_of : Run (Option (EvtDesc × Attempt × Cache)) → List EvtDesc
gone_of fault = []
gone_of (ok none) = []
gone_of (ok (some (desc, sent, c))) = desc ∷ []
gone_of (ok (some (desc, kept, c))) = []
gone_of (ok (some (desc, dropped, c))) = desc ∷ []

abbrev pub gone : (EvtDesc → TosResult) → Suber → List EvtDesc
gone answer s = if is_idle s then gone_of (replay_cached answer s.cache) else []

abbrev pub gone_by : (a b : Point × Suber) → Step a b → List EvtDesc
gone_by _ _ (replays {s} {next} r p) = gone (answer_while s.should_exit r) s
gone_by _ _ _ = []

-- The same over many steps.
abbrev pub all_by :
    ((a b : Point × Suber) → Step a b → List EvtDesc)
    → {a b : Point × Suber} → a ⟶* b
    → List EvtDesc
all_by part here = []
all_by part (onward {a} {b} step steps) = part a b step ++ all_by part steps

-- What a subscriber holds.
pub record Keeps (s : Suber) (held : Option EvtDesc) (cached : List EvtDesc) : Type 0 where
  pub box : Mailbox.Holds s.mailbox held
  pub store : Contents.Holds s.cache cached

-- What it holds after something happened: what went in behind, what came out in front.
pub record Through (s : Suber) (held : Option EvtDesc)
    (cached queued called kept_now gone_now : List EvtDesc) : Type 0 where
  pub held' : Option EvtDesc
  pub cached' : List EvtDesc
  pub keeps : Keeps s held' cached'
  pub queue : listed held ++ queued ≡ called ++ listed held'
  pub cache : cached ++ kept_now ≡ gone_now ++ cached'

pub stays :
    {s : Suber} {held : Option EvtDesc} {cached : List EvtDesc}
    → Keeps s held cached
    → Through s held cached [] [] [] []
stays {s} {held} {cached} k = record {
  held' = held;
  cached' = cached;
  keeps = k;
  queue = append-nil (listed held);
  cache = append-nil cached;
}

-- One step after others.
pub then-Through :
    {s t : Suber} {held : Option EvtDesc} {cached q1 c1 k1 g1 q2 c2 k2 g2 : List EvtDesc}
    (first : Through s held cached q1 c1 k1 g1)
    → Through t first.held' first.cached' q2 c2 k2 g2
    → Through t held cached (q1 ++ q2) (c1 ++ c2) (k1 ++ k2) (g1 ++ g2)
then-Through {held} {cached} {q1} {c1} {k1} {g1} {q2} {c2} {k2} {g2} first second = record {
  held' = second.held';
  cached' = second.cached';
  keeps = second.keeps;
  queue =
      pass (listed held) (listed first.held') (listed second.held') q1 c1 q2 c2 first.queue
        second.queue;
  cache = pass cached first.cached' second.cached' k1 g1 k2 g2 first.cache second.cache;
}
  where
    pass :
        (x y z a b c d : List EvtDesc)
        → x ++ a ≡ b ++ y
        → y ++ c ≡ d ++ z
        → x ++ (a ++ c) ≡ (b ++ d) ++ z
    pass x y z a b c d e f =
        sym (append_assoc x a c)
        ∙ ap (λ l. l ++ c) e
        ∙ append_assoc b y c
        ∙ ap (λ l. b ++ l) f
        ∙ sym (append_assoc b d z)
