-- ===== src/Ioc/Mailbox/Steps.antt =====
-- What single posts and takes do to what a mailbox holds.
use freely_craft_codes.Prelude.{
  ◌+◌, ◌^◌, ◌<◌, ◌≡◌, refl, ap, sym, ◌∙◌, Bool, true, false, Option, none, some, ok, ok-injective,
  ◌==◌, arith, subst, List, ◌∷◌, ◌++◌, [], if◌then◌else◌,
}
use freely_craft_codes.ThinkOs.{TosResult, success, timeout, ulong, is_success}
use freely_craft_codes.Ioc.Mailbox.{
  EvtDesc, Mailbox, try_post, Holds, nothing, one, after_post, after_take, post_empty, post_full,
}

abbrev pub is_none : Option EvtDesc → Bool
is_none none = true
is_none (some desc) = false

pub idle_of :
    (m : Mailbox) (held : Option EvtDesc)
    → Holds m held
    → (m.evt_post_cnt == m.evt_proc_cnt) ≡ is_none held
idle_of m none (nothing slot q h e) = ground arith
idle_of m (some held) (one same q h e) =
    let apart : m.evt_post_cnt ≡ m.evt_proc_cnt → ⊥ = λ same. omega (arith, same) in ground arith

pub after_post-Holds :
    (desc slot : EvtDesc) (m : Mailbox)
    → m.evt_proc_cnt < 2 ^ 64
    → m.evt_post_cnt ≡ m.evt_proc_cnt
    → Holds (after_post desc m) (some desc)
unfolding after_post
after_post-Holds desc slot m h e = one desc refl h (ap (λ n. ulong (n + 1)) e)

pub after_take-Holds :
    (desc : EvtDesc) (m : Mailbox) → Holds m (some desc) → Holds (after_take m) none
unfolding after_take
after_take-Holds desc m (one same q h e) = nothing desc q (omega arith) e

-- What a mailbox holds, as a list, and what an answered post puts into it.
abbrev pub listed : Option EvtDesc → List EvtDesc
listed none = []
listed (some desc) = desc ∷ []

abbrev pub let_in : TosResult → EvtDesc → List EvtDesc
let_in r desc = if is_success r then desc ∷ [] else []

-- After a post, answered or not, the mailbox holds an event, the posted one if it was accepted.
pub try_post-Holds :
    (desc : EvtDesc) (m m' : Mailbox) (r : TosResult) (held : Option EvtDesc)
    → Holds m held
    → try_post desc m ≡ ok (r, m')
    → (d : EvtDesc) × Holds m' (some d) × (listed held ++ let_in r desc ≡ d ∷ [])
try_post-Holds desc m m' r none (nothing slot q h e) p =
    let same : (success, after_post desc m) ≡ (r, m') =
      ok-injective (sym (post_empty desc slot m q h e) ∙ p) in
    (
      desc,
      subst (λ t. Holds t.1 (some desc)) same (after_post-Holds desc slot m h e),
      ap (λ t. let_in t.0 desc) (sym same),
    )
try_post-Holds desc m m' r (some held) (one same q h e) p =
    let same_box : (timeout, m) ≡ (r, m') = ok-injective (sym (post_full desc m h e) ∙ p) in
    (
      held,
      subst (λ t. Holds t.1 (some held)) same_box (one held q h e),
      ap (λ t. held ∷ let_in t.0 desc) (sym same_box),
    )
