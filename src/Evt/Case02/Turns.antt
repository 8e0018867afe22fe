-- ===== src/Evt/Case02/Turns.antt =====
-- What the threads of the test do: every post succeeds, and every event is delivered in order.
use freely_craft_codes.Prelude.{
  ℕ, suc, ◌+◌, ◌-◌, ◌<◌, ◌≡◌, ◌≢◌, refl, sym, ap, ap₂, subst, ◌∙◌, none, List, ◌∷◌, ◌++◌, [],
  append_assoc, append-nil, ok, length, length-append, replicate, ltb, ◌&&◌, true, arith,
}
use freely_craft_codes.ThinkOs.{TosResult, success, u32}
use freely_craft_codes.Evt.Types.{EvtDesc}
use freely_craft_codes.Evt.Oper.Invariant.{reged}
use freely_craft_codes.Evt.Queue.{EvtQueue, stamp}
use freely_craft_codes.Evt.Queue.Contents.{contents}
use freely_craft_codes.Evt.Manager.{Manager, running}
use freely_craft_codes.Evt.Manager.Invariant.{IsValid}
use freely_craft_codes.Evt.Manager.Events.{with_queue, calls_in}
use freely_craft_codes.Evt.Busy.Turns.{Turn, posts, rounds, calls_of, run_turns}
use freely_craft_codes.Evt.Busy.Room.{post_room, no_posts, busy_none, quiet_some}
use freely_craft_codes.Evt.Case02.{
  Move, posts_keepalive, posts_msgdata, takes, turns_of, results_of, has_room, left_by,
}
use freely_craft_codes.Evt.Case02.Events.{
  Kind, a_keepalive, a_msgdata, desc_of, next, n_after, seq_after, events_of, n_after-append,
  seq_after-append, events_of-append, length-events_of, kinds_of,
}

module _ (tail_cells p : ℕ) (m : Manager) (is_running : m.state ≡ running)
    (known : reged m.opers p ≢ none) where
  -- A queue of such events.
  pub record Holds (n seq_id : ℕ) (ks : List Kind) (q : EvtQueue) : Type 0 where
    pub valid : IsValid (suc tail_cells) (with_queue q m)
    pub deep : q.evt_desc_num_in_queue ≡ 256
    pub held : contents q ≡ events_of p n seq_id ks
    pub numbered : q.seq_id ≡ seq_after seq_id ks

  -- What becomes of it: `num` posts succeed, the first of what waited and what is added are taken,
  -- in their order, and `left` of them are left.
  abbrev pub Passes : ℕ → ℕ → List Kind → List Turn → List Kind → ℕ → ℕ → EvtQueue → Type 0
  Passes n seq_id ks turns added left num q =
      (rs : List (TosResult × EvtDesc)) × (q' : EvtQueue) × (taken rest : List Kind) × (run_turns
          turns (with_queue q m)
        ≡ ok (calls_of m.sub_table.rows (events_of p n seq_id taken), rs, with_queue q' m))
      × (taken ++ rest ≡ ks ++ added)
      × (length rest ≡ left)
      × (results_of rs ≡ replicate num success)

  abbrev pub MovesPass : ℕ → ℕ → List Kind → List Move → EvtQueue → Type 0
  MovesPass n seq_id ks moves q =
      Passes n seq_id ks (turns_of p (n_after n ks) moves) (kinds_of moves)
        (left_by moves (length ks)) (length (kinds_of moves)) q

  -- A post, and then the other moves.
  post-Passes :
      (n seq_id : ℕ) (ks : List Kind) (k : Kind) (moves : List Move) (q : EvtQueue)
      → Holds n seq_id ks q
      → (ltb (length ks) 255 && has_room moves (suc (length ks))) ≡ true
      → ((r : EvtQueue)
          → Holds n seq_id (ks ++ k ∷ []) r
          → has_room moves (length (ks ++ k ∷ [])) ≡ true
          → MovesPass n seq_id (ks ++ k ∷ []) moves r)
      → Passes n seq_id ks
          (posts p (desc_of (n_after n ks) k) ∷ turns_of p (next (n_after n ks) k) moves)
          (k ∷ kinds_of moves)
          (left_by moves (suc (length ks)))
          (suc (length (kinds_of moves)))
          q
  unfolding run_turns
  post-Passes n seq_id ks k moves q h fits others =
      let room : length ks < 255 = ground (arith, fits) in
      let later : has_room moves (suc (length ks)) ≡ true = ground (arith, fits) in
      let desc = desc_of (n_after n ks) k in
      let free : length (contents q) < q.evt_desc_num_in_queue =
        omega (arith, room, h.deep, ap length h.held, length-events_of p n seq_id ks) in
      let (q1, posted, v1, now) = post_room tail_cells m is_running p desc q h.valid known free in
      let held : contents q1 ≡ events_of p n seq_id (ks ++ k ∷ []) =
        ap (λ f. f.waiting) now
        ∙ ap₂ (λ es s. es ++ stamp p s desc ∷ []) h.held h.numbered
        ∙ sym (events_of-append p n seq_id ks k) in
      let numbered : q1.seq_id ≡ seq_after seq_id (ks ++ k ∷ []) =
        ap (λ f. f.next_seq) now
        ∙ ap (λ s. u32 (s + 1)) h.numbered
        ∙ sym (seq_after-append seq_id ks k) in
      let one_more : suc (length ks) ≡ length (ks ++ k ∷ []) =
        omega (arith, length-append ks (k ∷ [])) in
      let (rs, q2, taken, rest, run, split, left, all) =
        others q1
          (record {
            valid = v1;
            deep = ap (λ f. f.depth) now ∙ h.deep;
            held = held;
            numbered = numbered;
          })
          (subst (λ w. has_room moves w ≡ true) one_more later) in
      (
        (success, stamp p q.seq_id desc) ∷ rs,
        q2,
        taken,
        rest,
        rw (posted, sym (n_after-append n ks k), run) refl,
        split ∙ append_assoc ks (k ∷ []) (kinds_of moves),
        left ∙ ap (left_by moves) (sym one_more),
        ap (λ l. success ∷ l) all,
      )

  -- A round, and then the other moves.
  take-Passes :
      (n seq_id : ℕ) (ks : List Kind) (moves : List Move) (q : EvtQueue)
      → Holds n seq_id ks q
      → has_room moves (length ks - 1) ≡ true
      → ((i s : ℕ) (js : List Kind) (r : EvtQueue)
          → Holds i s js r
          → has_room moves (length js) ≡ true
          → MovesPass i s js moves r)
      → Passes n seq_id ks
          (rounds (λ call. []) ∷ turns_of p (n_after n ks) moves)
          (kinds_of moves)
          (left_by moves (length ks - 1))
          (length (kinds_of moves))
          q
  unfolding run_turns
  take-Passes n seq_id [] moves q h fits others =
      let ran = busy_none tail_cells m is_running (λ call. []) q h.valid h.held in
      let (rs, q2, taken, rest, run, split, left, all) = others n seq_id [] q h fits in
      (rs, q2, taken, rest, rw (ran, run) refl, split, left, all)
  take-Passes n seq_id (k ∷ ks) moves q h fits others =
      let desc = stamp p seq_id (desc_of n k) in
      let (q1, ran, v1, now) =
        quiet_some tail_cells m is_running (λ call. []) q desc
          (events_of p (next n k) (u32 (seq_id + 1)) ks) h.valid h.held
          (no_posts (calls_in desc m.sub_table.rows)) in
      let less : suc (length ks) - 1 ≡ length ks = omega arith in
      let (rs, q2, taken, rest, run, split, left, all) =
        others (next n k) (u32 (seq_id + 1)) ks q1
          (record {
            valid = v1;
            deep = ap (λ f. f.depth) now ∙ h.deep;
            held = ap (λ f. f.waiting) now;
            numbered = ap (λ f. f.next_seq) now ∙ h.numbered;
          })
          (subst (λ w. has_room moves w ≡ true) less fits) in
      (
        rs,
        q2,
        k ∷ taken,
        rest,
        rw (ran, run) refl,
        ap (λ l. k ∷ l) split,
        left ∙ ap (left_by moves) (sym less),
        all,
      )

  -- Where no post fills the queue, every post succeeds, and the callbacks are those for the first
  -- of what waits and what is posted, in the order of the posts.
  pub moves_lem :
      (n seq_id : ℕ) (ks : List Kind) (moves : List Move) (q : EvtQueue)
      → Holds n seq_id ks q
      → has_room moves (length ks) ≡ true
      → MovesPass n seq_id ks moves q
  unfolding run_turns
  moves_lem n seq_id ks [] q h fits = ([], q, [], ks, refl, sym (append-nil ks), refl, refl)
  moves_lem n seq_id ks (posts_keepalive ∷ moves) q h fits =
      post-Passes n seq_id ks a_keepalive moves q h fits
        (moves_lem n seq_id (ks ++ a_keepalive ∷ []) moves)
  moves_lem n seq_id ks (posts_msgdata ∷ moves) q h fits =
      post-Passes n seq_id ks a_msgdata moves q h fits
        (moves_lem n seq_id (ks ++ a_msgdata ∷ []) moves)
  moves_lem n seq_id ks (takes ∷ moves) q h fits =
      take-Passes n seq_id ks moves q h fits (λ i s js. moves_lem i s js moves)
