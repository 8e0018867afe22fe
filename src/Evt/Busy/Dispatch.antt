-- ===== src/Evt/Busy/Dispatch.antt =====
-- The dispatcher whose callbacks post is the dispatcher without the posts, and then the posts.
use freely_craft_codes.Prelude.{
  ℕ, zero, suc, ◌+◌, ◌≡◌, refl, sym, ap, subst, ◌∙◌, inl, inr, Option, none, some, List, ◌∷◌, ◌++◌,
  [], append-nil, length, length-append, Run, ok, ok-injective, bind-ok, ◌>>=◌, or_fault, get_elem?,
  Bool-cases, Option-cases, true, false, arith,
}
use freely_craft_codes.Evt.Types.{EvtDesc, EvtSubArgs}
use freely_craft_codes.Evt.Slots.{Slots}
use freely_craft_codes.Evt.Id.{selects}
use freely_craft_codes.Evt.Psdb.Rows.{Row}
use freely_craft_codes.Evt.Psdb.Dispatch.{CbCall, call_of_id, call_ids, call_rows}
use freely_craft_codes.Evt.Manager.{Manager}
use freely_craft_codes.Evt.Busy.{Posts, post_evts, Heard, busy_id, busy_ids, busy_slot, busy_rows}
use freely_craft_codes.Evt.Busy.Holding.{
  posts_in, posts_in-append, Holding, post_evts-Holding, with_room, Does, post_evts-append,
}

module _ (during : Posts) (index : ℕ) (desc : EvtDesc) where
  abbrev needs : List CbCall → ℕ → ℕ
  needs calls room = length (posts_in during calls) + room

  abbrev Both : List CbCall → List CbCall → ℕ → Manager → Run Heard → (Manager → Run Heard) → Type 0
  Both xs ys room m first next =
      Does index desc during (xs ++ ys) room m
        (do a ← first; b ← next a.2; ok (a.0 ++ b.0, a.1 ++ b.1, b.2))

  both :
      (xs ys : List CbCall) (room : ℕ) (m : Manager) (first : Run Heard)
      (next : Manager → Run Heard)
      → Does index desc during xs (needs ys room) m first
      → ((m' : Manager)
          → Holding index desc (needs ys room) m'
          → Does index desc during ys room m' (next m'))
      → Both xs ys room m first next
  both xs ys room m first next (rs, m1, ran, posted, h1) second =
      let (ss, m2, ran2, posted2, h2) = second m1 h1 in
      (
        rs ++ ss,
        m2,
        rw (ran, ran2) refl,
        ap (λ posts. post_evts posts m) (posts_in-append during xs ys)
            ∙ post_evts-append (posts_in during xs) (posts_in during ys) m m1 m2 rs ss posted
                posted2,
        h2,
      )

  split_room :
      (xs ys : List CbCall) (room : ℕ) {m : Manager}
      → Holding index desc (needs (xs ++ ys) room) m
      → Holding index desc (needs xs (needs ys room)) m
  split_room xs ys room h =
      with_room index desc
        (ap (λ posts. length posts + room) (posts_in-append during xs ys)
          ∙ omega (arith, length-append (posts_in during xs) (posts_in during ys)))
        h

  abbrev call_by : Row → EvtSubArgs → CbCall
  call_by row args = record { evt_suber_id = row.evt_oper_id; sub_args = args; evt_desc = desc }

  busy_id_call :
      (row : Row) (subed : ℕ) (args : EvtSubArgs) (room : ℕ) (m : Manager)
      → selects subed desc.evt_id ≡ true
      → row.evt_sub_args ≡ some args
      → Holding index desc (needs (call_by row args ∷ []) room) m
      → Does index desc during (call_by row args ∷ []) room m (busy_id during index row subed m)
  unfolding busy_id
  busy_id_call row subed args room m e a h =
      let posts = during (call_by row args) in
      let alone : posts_in during (call_by row args ∷ []) ≡ posts = append-nil posts in
      let (rs, m', ran, h') =
        post_evts-Holding index desc posts room m
          (with_room index desc (ap (λ ps. length ps + room) alone) h) in
      (rs, m', ground (arith, h.queue, h.slot, ran), ap (λ ps. post_evts ps m) alone ∙ ran, h')

  busy_id_skip :
      (row : Row) (subed : ℕ) (room : ℕ) (m : Manager)
      → selects subed desc.evt_id ≡ false
      → Holding index desc (needs [] room) m
      → Does index desc during [] room m (busy_id during index row subed m)
  unfolding busy_id post_evts
  busy_id_skip row subed room m e h =
      ([], m, rw (h.queue, h.slot, e) refl, refl, with_room index desc (omega arith) h)

  busy_id_lem :
      (row : Row) (subed : ℕ) (calls : List CbCall) (room : ℕ) (m : Manager)
      → call_of_id row subed desc ≡ ok calls
      → Holding index desc (needs calls room) m
      → Does index desc during calls room m (busy_id during index row subed m)
  unfolding call_of_id
  busy_id_lem row subed calls room m e h = elim (Bool-cases (selects subed desc.evt_id)) [
    | inr n ↦
        let nothing : [] ≡ calls = ground (arith, e, n) in
        subst
          (λ cs.
            Holding index desc (needs cs room) m
            → Does index desc during cs room m (busy_id during index row subed m))
          nothing (busy_id_skip row subed room m n) h
    | inl y ↦ elim (Option-cases row.evt_sub_args) [
      | inl no_args ↦ absurd (ground (arith, e, y, no_args))
      | inr (args, a) ↦
          let one_call : call_by row args ∷ [] ≡ calls = ground (arith, e, y, a) in
          subst
            (λ cs.
              Holding index desc (needs cs room) m
              → Does index desc during cs room m (busy_id during index row subed m))
            one_call (busy_id_call row subed args room m y a) h
    ]
  ]

  pub nothing_heard :
      (calls : List CbCall) (room : ℕ) (m : Manager)
      → [] ≡ calls
      → Holding index desc (needs calls room) m
      → Does index desc during calls room m (ok ([], [], m))
  unfolding post_evts
  nothing_heard calls room m e =
      subst
        (λ cs.
          Holding index desc (needs cs room) m → Does index desc during cs room m (ok ([], [], m)))
        e (λ h. ([], m, refl, refl, with_room index desc (omega arith) h))

  busy_ids_lem :
      (rounds num : ℕ) (row : Row) (calls : List CbCall) (room : ℕ) (m : Manager)
      → call_ids rounds num row desc ≡ ok calls
      → Holding index desc (needs calls room) m
      → Does index desc during calls room m (busy_ids during index rounds num row m)
  unfolding call_ids busy_ids
  busy_ids_lem zero num row calls room m e h = nothing_heard calls room m (ok-injective e) h
  busy_ids_lem (suc rounds) num row calls room m e h =
      let (subed, e1, f1) = bind-ok (or_fault (get_elem? row.evt_ids num)) _ calls e in
      let (first, e2, f2) = bind-ok (call_of_id row subed desc) _ calls f1 in
      let (rest, e3, f3) = bind-ok (call_ids rounds (suc num) row desc) _ calls f2 in
      let all : first ++ rest ≡ calls = ok-injective f3 in
      let h' =
        split_room first rest room
          (subst (λ cs. Holding index desc (needs cs room) m) (sym all) h) in
      subst (λ cs. Does index desc during cs room m (busy_ids during index (suc rounds) num row m))
        all
        (rw e1 (
          both first rest room m (busy_id during index row subed m)
            (busy_ids during index rounds (suc num) row)
            (busy_id_lem row subed first (needs rest room) m e2 h')
            (λ m' k. busy_ids_lem rounds (suc num) row rest room m' e3 k)))

  busy_slot_lem :
      (slot : Option Row) (calls : List CbCall) (room : ℕ) (m : Manager)
      → elim slot [ none ↦ ok [] | some row ↦ call_ids (suc row.num_ids) 0 row desc ] ≡ ok calls
      → Holding index desc (needs calls room) m
      → Does index desc during calls room m (busy_slot during index slot m)
  busy_slot_lem none calls room m e h = nothing_heard calls room m (ok-injective e) h
  busy_slot_lem (some row) calls room m e h = busy_ids_lem (suc row.num_ids) 0 row calls room m e h

  pub busy_rows_lem :
      (rounds idx : ℕ) (rows : Slots Row) (calls : List CbCall) (room : ℕ) (m : Manager)
      → call_rows rounds idx rows desc ≡ ok calls
      → Holding index desc (needs calls room) m
      → Does index desc during calls room m (busy_rows during index rounds idx rows m)
  unfolding call_rows busy_rows
  busy_rows_lem zero idx rows calls room m e h = nothing_heard calls room m (ok-injective e) h
  busy_rows_lem (suc rounds) idx rows calls room m e h =
      let (slot, e1, f1) = bind-ok (or_fault (get_elem? rows idx)) _ calls e in
      let (first, e2, f2) =
        bind-ok (elim slot [ none ↦ ok [] | some row ↦ call_ids (suc row.num_ids) 0 row desc ]) _
          calls f1 in
      let (rest, e3, f3) = bind-ok (call_rows rounds (suc idx) rows desc) _ calls f2 in
      let all : first ++ rest ≡ calls = ok-injective f3 in
      let h' =
        split_room first rest room
          (subst (λ cs. Holding index desc (needs cs room) m) (sym all) h) in
      subst
        (λ cs. Does index desc during cs room m (busy_rows during index (suc rounds) idx rows m))
        all
        (rw e1 (
          both first rest room m (busy_slot during index slot m)
            (busy_rows during index rounds (suc idx) rows)
            (busy_slot_lem slot first (needs rest room) m e2 h')
            (λ m' k. busy_rows_lem rounds (suc idx) rows rest room m' e3 k)))
