-- ===== src/Evt/Queue/Contents.antt =====
-- The events that a queue holds, and what posting and taking do to them.
use native.Mathlib.Nat.{mod-eq_of_lt}
use freely_craft_codes.Prelude.{
  or_fault, ℕ, zero, suc, ◌+◌, ◌-◌, ◌%◌, ◌≤◌, ◌<◌, ◌≡◌, refl, ok, length, length-append, arith, ◌≢◌,
  ap, ap₂, ◌∙◌, sym, set, List, [], ◌∷◌, ◌++◌, get_or, get_or-set_ne, get_or-set_self,
  get_elem?-eq-get_or,
}
use freely_craft_codes.Evt.Types.{EvtDesc}
use freely_craft_codes.Evt.Queue.{EvtQueue, zero_desc, stamp, read_slot}
use freely_craft_codes.Evt.Queue.Invariant.{
  IsValid, next_mod, mod-ne, mod_bound, after_post, after_take,
}
use freely_craft_codes.Evt.Queue.Fifo.{Fifo}

-- The `n` events from index `head` on, oldest first.
module _ (slots : List EvtDesc) (depth : ℕ) where
  abbrev pub slot_at : ℕ → EvtDesc
  slot_at i = get_or slots (i % depth) zero_desc

  abbrev pub window : ℕ → ℕ → List EvtDesc
  window head zero = []
  window head (suc n) = window head n ++ slot_at (head + n) ∷ []

  length-window : (head n : ℕ) → length (window head n) ≡ n
  length-window head zero = refl
  length-window head (suc n) =
      omega (arith, length-append (window head n) (slot_at (head + n) ∷ []), length-window head n)

  -- Its oldest event stands at the head.
  window_first : (head n : ℕ) → window head (suc n) ≡ slot_at head ∷ window ((head + 1) % depth) n
  window_first head zero = ap (λ i. slot_at i ∷ []) (omega arith)
  window_first head (suc n) =
      ap₂ (λ xs i. xs ++ get_or slots i zero_desc ∷ []) (window_first head n)
        (sym (next_mod head n depth ∙ ap (λ t. t % depth) (omega arith)))

-- A write just past the window extends it.
window-set_below :
    (slots : List EvtDesc) (depth head n m i : ℕ) (desc : EvtDesc)
    → head < depth
    → m < depth
    → n ≤ m
    → i ≡ (head + m) % depth
    → window (set slots i desc) depth head n ≡ window slots depth head n
window-set_below slots depth head zero m i desc h hm hn e = refl
window-set_below slots depth head (suc n) m i desc h hm hn e =
    ap₂ (λ xs x. xs ++ x ∷ []) (window-set_below slots depth head n m i desc h hm (omega arith) e)
      (get_or-set_ne slots i ((head + n) % depth) desc zero_desc
        (λ p. mod-ne head n m depth h hn hm (sym p ∙ e)))

window-set :
    (slots : List EvtDesc) (depth head n i : ℕ) (desc : EvtDesc)
    → length slots ≡ depth
    → head < depth
    → n < depth
    → i ≡ (head + n) % depth
    → window (set slots i desc) depth head (suc n) ≡ window slots depth head n ++ desc ∷ []
window-set slots depth head n i desc sized h hn e =
    ap₂ (λ xs x. xs ++ x ∷ []) (window-set_below slots depth head n n i desc h hn (omega arith) e)
      (ap (λ j. get_or (set slots i desc) j zero_desc) (sym e)
        ∙ get_or-set_self slots i desc zero_desc
            (omega (arith, mod_bound (head + n) depth (omega arith))))

-- The events in a queue, oldest first.
abbrev pub contents : EvtQueue → List EvtDesc
contents q = window q.evt_desc_queue q.evt_desc_num_in_queue q.cur_evt_head q.cur_evt_num

abbrev pub view : EvtQueue → Fifo
view q = record { depth = q.evt_desc_num_in_queue; next_seq = q.seq_id; waiting = contents q }

pub length-contents : (q : EvtQueue) → length (contents q) ≡ q.cur_evt_num
length-contents q =
    length-window q.evt_desc_queue q.evt_desc_num_in_queue q.cur_evt_head q.cur_evt_num

pub contents-after_post :
    (p : ℕ) (desc : EvtDesc) (q : EvtQueue)
    → IsValid q
    → q.cur_evt_num ≢ q.evt_desc_num_in_queue
    → contents (after_post p desc q) ≡ contents q ++ stamp p q.seq_id desc ∷ []
contents-after_post p desc q v ne =
    let n = q.cur_evt_num in
    let depth = q.evt_desc_num_in_queue in
    let count : n + 1 ≡ suc n = omega arith in
    ap (window (after_post p desc q).evt_desc_queue depth q.cur_evt_head) count
    ∙ window-set q.evt_desc_queue depth q.cur_evt_head n q.cur_evt_tail (stamp p q.seq_id desc)
        v.storage v.head_in (omega arith) v.tail_at

pub contents-after_take :
    (q : EvtQueue)
    → IsValid q
    → q.cur_evt_num ≢ 0
    → (desc : EvtDesc) × (read_slot q q.cur_evt_head ≡ ok desc)
      × (contents q ≡ desc ∷ contents (after_take q))
contents-after_take q v ne =
    let slots = q.evt_desc_queue in
    let depth = q.evt_desc_num_in_queue in
    let head = q.cur_evt_head in
    let count : q.cur_evt_num ≡ suc (q.cur_evt_num - 1) = omega arith in
    let at_head : slot_at slots depth head ≡ get_or slots head zero_desc =
      ap (λ i. get_or slots i zero_desc) (mod-eq_of_lt v.head_in) in
    (
      get_or slots head zero_desc,
      ap or_fault (get_elem?-eq-get_or slots head zero_desc (omega (arith, v.storage))),
      ap (window slots depth head) count
          ∙ window_first slots depth head (q.cur_evt_num - 1)
          ∙ ap (λ d. d ∷ contents (after_take q)) at_head,
    )
