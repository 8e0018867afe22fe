-- ===== src/Ioc/Cache/Contents.antt =====
-- Which events the cache holds, and what each operation makes of them.
use freely_craft_codes.Prelude.{
  ℕ, zero, suc, ◌+◌, ◌%◌, ◌^◌, ◌≤◌, ◌<◌, ◌≡◌, ◌≢◌, refl, sym, ap, subst, ok-injective, ◌∙◌, ◌⊎◌,
  inl, inr, true, none, some, List, ◌∷◌, ◌++◌, [], append-nil, ok, get_elem?, get_elem?-set_self,
  get_elem?-set_ne, set, length, length-set, length-append, ltb, dec_lt, arith,
}
use freely_craft_codes.ThinkOs.{TosResult, success, not_enough_resource, ulong}
use freely_craft_codes.Ioc.Mailbox.{EvtDesc}
use freely_craft_codes.Ioc.Mailbox.Steps.{let_in}
use freely_craft_codes.Ioc.Cache.{
  Cache, evt_cached_max, cached_num, post_cached, Attempt, sent, kept, dropped, attempt, attempted,
  past_first, replay_cached,
}

-- What a replay leaves held.
abbrev pub left_after : Attempt → EvtDesc → List EvtDesc → List EvtDesc
left_after sent desc held = held
left_after kept desc held = desc ∷ held
left_after dropped desc held = held

-- The cache holds these events, the oldest first. The counters may have wrapped.
pub record Holds (c : Cache) (held : List EvtDesc) : Type 0 where
  pub sized : length c.evt_desc_cached_queue ≡ 4
  pub few : length held ≤ 4
  pub narrow : c.evt_proc_cached_cnt < 2 ^ 64
  pub counted : c.evt_post_cached_cnt ≡ ulong (c.evt_proc_cached_cnt + length held)
  pub stored :
      (i : ℕ) (desc : EvtDesc)
      → get_elem? held i ≡ some desc
      → get_elem? c.evt_desc_cached_queue ((c.evt_proc_cached_cnt + i) % 4) ≡ some desc

pub cached_num_of : (c : Cache) (held : List EvtDesc) → Holds c held → cached_num c ≡ length held
cached_num_of c held h = omega (arith, h.few, h.narrow, h.counted)

unfoldable pub after_post : EvtDesc → Cache → Cache
after_post desc c = record c {
  evt_desc_cached_queue = set c.evt_desc_cached_queue (c.evt_post_cached_cnt % evt_cached_max) desc;
  evt_post_cached_cnt = ulong (c.evt_post_cached_cnt + 1);
}

get-append :
    (held : List EvtDesc) (desc : EvtDesc) (i : ℕ) (d : EvtDesc)
    → get_elem? (held ++ desc ∷ []) i ≡ some d
    → ((get_elem? held i ≡ some d) × (i < length held)) ⊎ ((i ≡ length held) × (desc ≡ d))
get-append [] desc zero d e = inr (refl, cc)
get-append [] desc (suc i) d e = cc
get-append (x ∷ held) desc zero d e = inl (e, omega arith)
get-append (x ∷ held) desc (suc i) d e = elim (get-append held desc i d e) [
  | inl (there, lt) ↦ inl (there, omega arith)
  | inr (last, same) ↦ inr (ap suc last, same)
]

-- The slot after the last event is none of the held ones.
next_slot :
    (c : Cache) (held : List EvtDesc)
    → Holds c held
    → length held < 4
    → c.evt_post_cached_cnt % 4 ≡ (c.evt_proc_cached_cnt + length held) % 4
next_slot c held h room = omega (arith, h.narrow, h.counted)

other_slot : (p n i : ℕ) → i < n → n < 4 → (p + n) % 4 ≢ (p + i) % 4
other_slot p n i lt room e = omega arith

pub after_post-Holds :
    (desc : EvtDesc) (c : Cache) (held : List EvtDesc)
    → Holds c held
    → length held < 4
    → Holds (after_post desc c) (held ++ desc ∷ [])
unfolding after_post
after_post-Holds desc c held h room =
    let slot = next_slot c held h room in
    record {
      sized = length-set c.evt_desc_cached_queue (c.evt_post_cached_cnt % 4) desc ∙ h.sized;
      few = omega (arith, length-append held (desc ∷ []));
      narrow = h.narrow;
      counted = omega (arith, length-append held (desc ∷ []), h.counted, h.narrow);
      stored = λ i d e. elim (get-append held desc i d e) [
        | inl (there, lt) ↦
            get_elem?-set_ne c.evt_desc_cached_queue (c.evt_post_cached_cnt % 4)
              ((c.evt_proc_cached_cnt + i) % 4) desc
              (λ same.
                other_slot c.evt_proc_cached_cnt (length held) i lt room
                  (omega (arith, same, slot)))
            ∙ h.stored i d there
        | inr (last, same) ↦
            ap (get_elem? (set c.evt_desc_cached_queue (c.evt_post_cached_cnt % 4) desc))
              (omega (arith, slot, last))
            ∙ get_elem?-set_self c.evt_desc_cached_queue (c.evt_post_cached_cnt % 4) desc
                (omega (arith, h.sized))
            ∙ ap some same
      ];
    }

past_first-Holds :
    (desc : EvtDesc) (c : Cache) (held : List EvtDesc)
    → Holds c (desc ∷ held)
    → Holds (past_first c) held
past_first-Holds desc c held h = record {
  sized = h.sized;
  few = omega (arith, h.few);
  narrow = omega arith;
  counted = omega (arith, h.counted, h.narrow);
  stored = λ i d e. ap (get_elem? c.evt_desc_cached_queue) (omega arith) ∙ h.stored (suc i) d e;
}

pub post_room :
    (desc : EvtDesc) (c : Cache) (held : List EvtDesc)
    → Holds c held
    → length held < 4
    → post_cached desc c ≡ ok (success, after_post desc c)
unfolding post_cached after_post
post_room desc c held h room =
    let inside : c.evt_post_cached_cnt % 4 < length c.evt_desc_cached_queue =
      omega (arith, h.sized) in
    ground (arith, cached_num_of c held h)

pub post_full :
    (desc : EvtDesc) (c : Cache) (held : List EvtDesc)
    → Holds c held
    → 4 ≤ length held
    → post_cached desc c ≡ ok (not_enough_resource, c)
unfolding post_cached
post_full desc c held h full = ground (arith, cached_num_of c held h)

pub replay_empty :
    (answer : EvtDesc → TosResult) (c : Cache) → Holds c [] → replay_cached answer c ≡ ok none
unfolding replay_cached
replay_empty answer c h = ground (arith, cached_num_of c [] h)

first_stored :
    (desc : EvtDesc) (c : Cache) (held : List EvtDesc)
    → Holds c (desc ∷ held)
    → get_elem? c.evt_desc_cached_queue (c.evt_proc_cached_cnt % 4) ≡ some desc
first_stored desc c held h =
    ap (get_elem? c.evt_desc_cached_queue) (omega arith) ∙ h.stored 0 desc refl

pub replay_first :
    (answer : EvtDesc → TosResult) (desc : EvtDesc) (c : Cache) (held : List EvtDesc)
    → Holds c (desc ∷ held)
    → replay_cached answer c
      ≡ ok (some (desc, attempt (answer desc) desc, attempted (attempt (answer desc) desc) c))
unfolding replay_cached
replay_first answer desc c held h =
    let some_there : ltb 0 (cached_num c) ≡ true =
      ground (arith, cached_num_of c (desc ∷ held) h) in
    rw (some_there, first_stored desc c held h) refl

pub attempted-Holds :
    (a : Attempt) (desc : EvtDesc) (c : Cache) (held : List EvtDesc)
    → Holds c (desc ∷ held)
    → Holds (attempted a c) (left_after a desc held)
attempted-Holds sent desc c held h = past_first-Holds desc c held h
attempted-Holds kept desc c held h = h
attempted-Holds dropped desc c held h = past_first-Holds desc c held h

-- After a post, answered or not, the cache holds what it held, and the event if it was accepted.
pub post_cached-Holds :
    (desc : EvtDesc) (c c' : Cache) (r : TosResult) (held : List EvtDesc)
    → Holds c held
    → post_cached desc c ≡ ok (r, c')
    → Holds c' (held ++ let_in r desc)
post_cached-Holds desc c c' r held h p = elim (dec_lt (length held) 4) [
  | yes room ↦
      let same : (success, after_post desc c) ≡ (r, c') =
        ok-injective (sym (post_room desc c held h room) ∙ p) in
      subst (λ t. Holds t.1 (held ++ let_in t.0 desc)) same (after_post-Holds desc c held h room)
  | no full ↦
      let same : (not_enough_resource, c) ≡ (r, c') =
        ok-injective (sym (post_full desc c held h (omega arith)) ∙ p) in
      subst (λ t. Holds t.1 (held ++ let_in t.0 desc)) same
        (subst (Holds c) (sym (append-nil held)) h)
]
