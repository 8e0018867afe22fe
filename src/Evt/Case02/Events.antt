-- ===== src/Evt/Case02/Events.antt =====
-- The events of the test: what the two posting threads post, as the queue numbers it.
use freely_craft_codes.Prelude.{ℕ, suc, ◌+◌, ◌≡◌, refl, ap, List, ◌∷◌, ◌++◌, [], length, arith}
use freely_craft_codes.ThinkOs.{u32}
use freely_craft_codes.Evt.Types.{EvtDesc}
use freely_craft_codes.Evt.Queue.{stamp}
use freely_craft_codes.Evt.Scenario.{keepalive_desc}
use freely_craft_codes.Evt.Case02.{Move, posts_keepalive, posts_msgdata, takes, msgdata_desc}

pub data Kind : Type 0 where
  a_keepalive a_msgdata : Kind

abbrev pub desc_of : ℕ → Kind → EvtDesc
desc_of n a_keepalive = keepalive_desc
desc_of n a_msgdata = msgdata_desc n

-- The number of the next message, and that of the next event.
abbrev pub next : ℕ → Kind → ℕ
next n a_keepalive = n
next n a_msgdata = suc n

abbrev pub n_after : ℕ → List Kind → ℕ
n_after n [] = n
n_after n (k ∷ ks) = n_after (next n k) ks

abbrev pub seq_after : ℕ → List Kind → ℕ
seq_after seq_id [] = seq_id
seq_after seq_id (k ∷ ks) = seq_after (u32 (seq_id + 1)) ks

abbrev pub events_of : ℕ → ℕ → ℕ → List Kind → List EvtDesc
events_of p n seq_id [] = []
events_of p n seq_id (k ∷ ks) =
    stamp p seq_id (desc_of n k) ∷ events_of p (next n k) (u32 (seq_id + 1)) ks

pub n_after-append :
    (n : ℕ) (ks : List Kind) (k : Kind) → n_after n (ks ++ k ∷ []) ≡ next (n_after n ks) k
n_after-append n [] k = refl
n_after-append n (x ∷ ks) k = n_after-append (next n x) ks k

pub seq_after-append :
    (seq_id : ℕ) (ks : List Kind) (k : Kind)
    → seq_after seq_id (ks ++ k ∷ []) ≡ u32 (seq_after seq_id ks + 1)
seq_after-append seq_id [] k = refl
seq_after-append seq_id (x ∷ ks) k = seq_after-append (u32 (seq_id + 1)) ks k

pub events_of-append :
    (p n seq_id : ℕ) (ks : List Kind) (k : Kind)
    → events_of p n seq_id (ks ++ k ∷ [])
      ≡ events_of p n seq_id ks ++ stamp p (seq_after seq_id ks) (desc_of (n_after n ks) k) ∷ []
events_of-append p n seq_id [] k = refl
events_of-append p n seq_id (x ∷ ks) k =
    ap (λ es. stamp p seq_id (desc_of n x) ∷ es)
      (events_of-append p (next n x) (u32 (seq_id + 1)) ks k)

pub length-events_of :
    (p n seq_id : ℕ) (ks : List Kind) → length (events_of p n seq_id ks) ≡ length ks
length-events_of p n seq_id [] = refl
length-events_of p n seq_id (k ∷ ks) =
    omega (arith, length-events_of p (next n k) (u32 (seq_id + 1)) ks)

-- What the moves post.
abbrev pub kinds_of : List Move → List Kind
kinds_of [] = []
kinds_of (posts_keepalive ∷ moves) = a_keepalive ∷ kinds_of moves
kinds_of (posts_msgdata ∷ moves) = a_msgdata ∷ kinds_of moves
kinds_of (takes ∷ moves) = kinds_of moves

abbrev pub keepalives : List Kind → ℕ
keepalives [] = 0
keepalives (a_keepalive ∷ ks) = suc (keepalives ks)
keepalives (a_msgdata ∷ ks) = keepalives ks

abbrev pub msgdatas : List Kind → ℕ
msgdatas [] = 0
msgdatas (a_keepalive ∷ ks) = msgdatas ks
msgdatas (a_msgdata ∷ ks) = suc (msgdatas ks)

pub keepalives-append : (xs ys : List Kind) → keepalives (xs ++ ys) ≡ keepalives xs + keepalives ys
keepalives-append [] ys = omega arith
keepalives-append (a_keepalive ∷ xs) ys = omega (arith, keepalives-append xs ys)
keepalives-append (a_msgdata ∷ xs) ys = keepalives-append xs ys

pub msgdatas-append : (xs ys : List Kind) → msgdatas (xs ++ ys) ≡ msgdatas xs + msgdatas ys
msgdatas-append [] ys = omega arith
msgdatas-append (a_keepalive ∷ xs) ys = msgdatas-append xs ys
msgdatas-append (a_msgdata ∷ xs) ys = omega (arith, msgdatas-append xs ys)

pub length-sum : (ks : List Kind) → keepalives ks + msgdatas ks ≡ length ks
length-sum [] = refl
length-sum (a_keepalive ∷ ks) = omega (arith, length-sum ks)
length-sum (a_msgdata ∷ ks) = omega (arith, length-sum ks)
