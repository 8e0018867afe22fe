-- ===== src/Evt/Busy/Holding.antt =====
-- What posts leave alone while the thread holds a slot of the queue.
use freely_craft_codes.Prelude.{
  ℕ, suc, ◌+◌, ◌<◌, ◌≡◌, ◌≢◌, refl, sym, ap, subst, ◌∙◌, inl, inr, some, List, ◌∷◌, ◌++◌, [],
  append_assoc, length, Run, ok, bind-ok, arith,
}
use freely_craft_codes.ThinkOs.{TosResult, success, not_reged}
use freely_craft_codes.Evt.Types.{EvtDesc}
use freely_craft_codes.Evt.Oper.Invariant as OperTable
use freely_craft_codes.Evt.Queue.{EvtQueue, read_slot, stamp}
use freely_craft_codes.Evt.Queue.Invariant.{
  after_post, after_take, do_post_room, after_post-IsValid, after_take-IsValid, take_head_empty,
  take_head-some,
}
use freely_craft_codes.Evt.Queue.Invariant as Ring
use freely_craft_codes.Evt.Psdb.Dispatch.{CbCall}
use freely_craft_codes.Evt.Worker.{before_head, post_keeps}
use freely_craft_codes.Evt.Manager.{Manager}
use freely_craft_codes.Evt.Manager.Events.{with_queue, post_evt-either}
use freely_craft_codes.Evt.Manager.Interface.{post_evt}
use freely_craft_codes.Evt.Busy.{Posts, post_evts, Heard}

-- The posts during a list of callbacks.
abbrev pub posts_in : Posts → List CbCall → List (ℕ × EvtDesc)
posts_in during [] = []
posts_in during (call ∷ calls) = during call ++ posts_in during calls

pub posts_in-append :
    (during : Posts) (xs ys : List CbCall)
    → posts_in during (xs ++ ys) ≡ posts_in during xs ++ posts_in during ys
posts_in-append during [] ys = refl
posts_in-append during (x ∷ xs) ys =
    ap (λ zs. during x ++ zs) (posts_in-append during xs ys)
    ∙ sym (append_assoc (during x) (posts_in during xs) (posts_in during ys))

-- The manager of a thread that reads `desc` in the slot at an index: the slot is the one before the
-- head, and the queue has room for some posts before that slot is written.
pub record Holding (index : ℕ) (desc : EvtDesc) (room : ℕ) (m : Manager) : Type 0 where
  pub q : EvtQueue
  pub opers : OperTable.IsValid m.opers
  pub queue : m.evt_queue_procer ≡ some (some q ∷ [])
  pub valid : Ring.IsValid q
  pub at : index ≡ before_head q
  pub slot : read_slot q index ≡ ok desc
  pub spare : q.cur_evt_num + room < q.evt_desc_num_in_queue

module _ (index : ℕ) (desc : EvtDesc) where
  post_evt-Holding :
      (p : ℕ) (d : EvtDesc) (room : ℕ) (m : Manager)
      → Holding index desc (suc room) m
      → (r : TosResult × EvtDesc) × (m' : Manager) × (post_evt p d m ≡ ok (r.0, r.1, m'))
        × Holding index desc room m'
  post_evt-Holding p d room m h =
      let q = h.q in
      let ne : q.cur_evt_num ≢ q.evt_desc_num_in_queue = (λ e. omega (arith, h.spare)) in
      let run = do_post_room p d q h.valid ne in
      elim (post_evt-either m p d q (after_post p d q) (success, stamp p q.seq_id d) h.opers h.queue
        run) [
          | inl (known, e) ↦ (
            (success, stamp p q.seq_id d),
            with_queue (after_post p d q) m,
            e,
            record {
              q = after_post p d q;
              opers = h.opers;
              queue = refl;
              valid = after_post-IsValid p d q h.valid ne;
              at = h.at;
              slot =
                  ap (read_slot (after_post p d q)) h.at
                  ∙ post_keeps p d q h.valid (omega (arith, h.spare))
                  ∙ ap (read_slot q) (sym h.at)
                  ∙ h.slot;
              spare = omega (arith, h.spare);
            },
          )
          | inr (free, e) ↦ (
            (not_reged, d),
            m,
            e,
            record {
              q = q;
              opers = h.opers;
              queue = h.queue;
              valid = h.valid;
              at = h.at;
              slot = h.slot;
              spare = omega (arith, h.spare);
            },
          )
        ]

  pub with_room : {a b : ℕ} {m : Manager} → a ≡ b → Holding index desc a m → Holding index desc b m
  with_room {m} e h = subst (λ n. Holding index desc n m) e h

  pub post_evts-Holding :
      (posts : List (ℕ × EvtDesc)) (room : ℕ) (m : Manager)
      → Holding index desc (length posts + room) m
      → (rs : List (TosResult × EvtDesc)) × (m' : Manager) × (post_evts posts m ≡ ok (rs, m'))
        × Holding index desc room m'
  unfolding post_evts
  post_evts-Holding [] room m h = ([], m, refl, with_room (omega arith) h)
  post_evts-Holding ((p, d) ∷ posts) room m h =
      let (r, m1, posted, h1) =
        post_evt-Holding p d (length posts + room) m (with_room (omega arith) h) in
      let (rs, m2, rest, h2) = post_evts-Holding posts room m1 h1 in
      ((r.0, r.1) ∷ rs, m2, rw (posted, rest) refl, h2)

  -- What a part of a busy round does that calls `calls`, and where it leaves the manager.
  abbrev pub Does : Posts → List CbCall → ℕ → Manager → Run Heard → Type 0
  Does during calls room m run =
      (rs : List (TosResult × EvtDesc)) × (m' : Manager) × (run ≡ ok (calls, rs, m'))
      × (post_evts (posts_in during calls) m ≡ ok (rs, m'))
      × Holding index desc room m'

pub post_evts-append :
    (xs ys : List (ℕ × EvtDesc)) (m m1 m2 : Manager) (rs ss : List (TosResult × EvtDesc))
    → post_evts xs m ≡ ok (rs, m1)
    → post_evts ys m1 ≡ ok (ss, m2)
    → post_evts (xs ++ ys) m ≡ ok (rs ++ ss, m2)
unfolding post_evts
post_evts-append [] ys m m1 m2 rs ss e f = ground arith
post_evts-append ((p, d) ∷ xs) ys m m1 m2 rs ss e f =
    let (posted, e1, e2) = bind-ok (post_evt p d m) _ (rs, m1) e in
    let (rest, e3, e4) = bind-ok (post_evts xs posted.2) _ (rs, m1) e2 in
    let all = post_evts-append xs ys posted.2 rest.1 m2 rest.0 ss e3 (ground (arith, e4, f)) in
    rw (e1, all) (ground (arith, e4))
