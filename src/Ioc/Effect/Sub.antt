-- ===== src/Ioc/Effect/Sub.antt =====
-- What a subscription changes for a synchronous post.
use freely_craft_codes.Prelude.{
  ℕ, zero, suc, ◌+◌, ◌^◌, ◌||◌, ◌≤◌, ◌<◌, ◌≡◌, refl, ap, ◌∙◌, Bool, true, false, inl, inr,
  Bool-cases, Option, some, List, ◌∷◌, ◌++◌, [], ok, length, length-set, take, get_elem?, set, ◌==◌,
  if◌then◌else◌, arith,
}
use freely_craft_codes.ThinkOs.{TosResult, success, no_evt_suber, ulong}
use freely_craft_codes.Ioc.Mailbox.{EvtDesc}
use freely_craft_codes.Ioc.Conles.{
  SubArgs, Suber, Context, lock, unlock, is_free, saved, with_subers, sub_at, sub_evt,
}
use freely_craft_codes.Ioc.Conles.Count.{first_suber-get, IsCounted}
use freely_craft_codes.Ioc.Conles.Subscribe.{has_free, sub_room}
use freely_craft_codes.Ioc.Lock.{Options, mode_of, LockReply, Keys, admit, admitted}
use freely_craft_codes.Ioc.Course.{Course, done}
use freely_craft_codes.Ioc.Post.{Callbacks, post_evt, Posted}
use freely_craft_codes.Ioc.Post.Hearing.{is_among, wants, wanting, has_all, all_stored}
use freely_craft_codes.Ioc.Post.Sync.{called, last_reply, post_evt-sync, and_left, and_right}

-- The new subscriber, if it wants the event.
abbrev pub if_wanting : EvtDesc → Suber → List Suber
if_wanting desc s = if wants desc s then s ∷ [] else []

wanting-set :
    (desc : EvtDesc) (subers : List Suber) (idx : ℕ) (old new : Suber)
    → get_elem? subers idx ≡ some old
    → wants desc old ≡ false
    → (before after : List Suber) × (wanting desc subers ≡ before ++ after)
      × (wanting desc (set subers idx new) ≡ before ++ (if_wanting desc new ++ after))
wanting-set desc [] idx old new e w = cc
wanting-set desc (s ∷ subers) zero old new e w =
    let first : wants desc s ≡ false = ground arith in
    (
      [],
      wanting desc subers,
      rw first refl,
      elim (Bool-cases (wants desc new)) [ inl wn ↦ rw wn refl | inr wn ↦ rw wn refl ],
    )
wanting-set desc (s ∷ subers) (suc idx) old new e w =
    let (before, after, was, now) = wanting-set desc subers idx old new e w in
    elim (Bool-cases (wants desc s)) [
      | inl ws ↦ (s ∷ before, after, rw (ws, was) refl, rw (ws, now) refl)
      | inr ws ↦ (before, after, rw ws was, rw ws now)
    ]

called-append : (xs ys : List Suber) → called (xs ++ ys) ≡ called xs ++ called ys
called-append [] ys = refl
called-append (x ∷ xs) ys = ap (λ t. (x.cb_proc_evt, x.cb_priv) ∷ t) (called-append xs ys)

all_stored-set :
    (subers : List Suber) (idx : ℕ) (new : Suber)
    → all_stored subers ≡ true
    → has_all new.evt_num new.evt_ids ≡ true
    → all_stored (set subers idx new) ≡ true
all_stored-set [] idx new a h = refl
all_stored-set (s ∷ subers) zero new a h =
    rw (h, and_right (has_all s.evt_num s.evt_ids) (all_stored subers) a) refl
all_stored-set (s ∷ subers) (suc idx) new a h =
    rw
      (
        and_left (has_all s.evt_num s.evt_ids) (all_stored subers) a,
        all_stored-set subers idx new
            (and_right (has_all s.evt_num s.evt_ids) (all_stored subers) a) h,
      )
      refl

length-take : (n : ℕ) (xs : List ℕ) → n ≤ length xs → length (take n xs) ≡ n
length-take zero xs h = refl
length-take (suc n) [] h = absurd (omega arith)
length-take (suc n) (x ∷ xs) h = ap suc (length-take n xs (omega arith))

abbrev new_suber : SubArgs → Suber
new_suber args = saved args (some (take args.evt_num args.evt_ids))

new_stored :
    (args : SubArgs)
    → args.evt_num ≤ length args.evt_ids
    → has_all (new_suber args).evt_num (new_suber args).evt_ids ≡ true
new_stored args h = ground (arith, length-take args.evt_num args.evt_ids h)

free_wants_nothing : (desc : EvtDesc) (s : Suber) → is_free s ≡ true → wants desc s ≡ false
free_wants_nothing desc s f = rw f refl

-- The call that the new subscriber gets.
abbrev pub new_call : EvtDesc → SubArgs → List (ℕ × ℕ)
new_call desc args =
    if is_among desc.evt_id (take args.evt_num args.evt_ids)
    then (args.cb_proc_evt, args.cb_priv) ∷ []
    else []

take-take : (n : ℕ) (xs : List ℕ) → take n (take n xs) ≡ take n xs
take-take zero xs = refl
take-take (suc n) [] = refl
take-take (suc n) (x ∷ xs) = ap (λ t. x ∷ t) (take-take n xs)

called_new :
    (desc : EvtDesc) (args : SubArgs)
    → (args.cb_proc_evt == 0) ≡ false
    → called (if_wanting desc (new_suber args)) ≡ new_call desc args
called_new desc args named =
    elim (Bool-cases (is_among desc.evt_id (take args.evt_num args.evt_ids))) [
      | inl m ↦ rw (named, take-take args.evt_num args.evt_ids, m) refl
      | inr m ↦ rw (named, take-take args.evt_num args.evt_ids, m) refl
    ]

-- A context that is subscribed to with `new` in place `idx`.
abbrev pub joined : List Suber → ℕ → Suber → Context → Context
joined subers idx new c = unlock (record (with_subers (set subers idx new) (lock c)) {
  cur_suber_num = ulong (c.cur_suber_num + 1);
})

-- The calls of a synchronous post before and after.
pub data SubEffect (post : Context → Course Posted) (c c' : Context) (new : List (ℕ × ℕ))
    : Type 0 where
  inserts :
      (before after : List (ℕ × ℕ)) (r r' : TosResult)
      → post c ≡ done (record { result = r; calls = before ++ after; context = c })
      → post c' ≡ done (record { result = r'; calls = before ++ (new ++ after); context = c' })
      → SubEffect post c c' new

module _ (callbacks : Callbacks) (desc : EvtDesc) (options : Option Options) (keys : Keys)
    (reply : LockReply) (sleeps : List Bool) (args : SubArgs) (c : Context)
    (g : admit (mode_of options) keys reply ≡ admitted)
    (sync : ((mode_of options).is_sync_mode || c.is_sync_mode) ≡ true)
    (named : (args.cb_proc_evt == 0) ≡ false) (enough : args.evt_num ≤ length args.evt_ids)
    (subers : List Suber) (t : c.evt_subers ≡ some subers) (l : length subers ≡ c.max_suber_num)
    (a : all_stored subers ≡ true) where
  post_inserts :
      (idx : ℕ) (old : Suber)
      → get_elem? subers idx ≡ some old
      → is_free old ≡ true
      → SubEffect
          (post_evt callbacks desc options keys reply sleeps)
          c
          (joined subers idx (new_suber args) c)
          (new_call desc args)
  post_inserts idx old read free =
      let new = new_suber args in
      let c' = joined subers idx new c in
      let (before, after, was, now) =
        wanting-set desc subers idx old new read (free_wants_nothing desc old free) in
      let was_called : called (wanting desc subers) ≡ called before ++ called after =
        ap called was ∙ called-append before after in
      let now_called : called (wanting desc (set subers idx new))
          ≡ called before ++ (new_call desc args ++ called after) =
        ap called now
        ∙ called-append before (if_wanting desc new ++ after)
        ∙ ap (λ t. called before ++ t)
            (called-append (if_wanting desc new) after
              ∙ ap (λ t. t ++ called after) (called_new desc args named)) in
      let stored = all_stored-set subers idx new a (new_stored args enough) in
      let r = last_reply callbacks desc no_evt_suber (wanting desc subers) in
      let r' = last_reply callbacks desc no_evt_suber (wanting desc (set subers idx new)) in
      inserts (called before) (called after) r r'
        (post_evt-sync callbacks desc options keys reply sleeps c subers g sync t l a
          ∙ ap (λ t. done (record { result = r; calls = t; context = c })) was_called)
        (post_evt-sync callbacks desc options keys reply sleeps c' (set subers idx new) g sync refl
            (length-set subers idx new ∙ l) stored
          ∙ ap (λ t. done (record { result = r'; calls = t; context = c' })) now_called)

-- On a context whose counter is right and that has room, whose subscribers have stored their ids, a
-- subscription with a callback and enough ids for which `malloc` succeeds is accepted. A synchronous
-- post that gets the mutex then calls whom it called before, in the same order, and the new
-- subscriber too, once, at one place among them, exactly if the event is among its ids.
pub sub_evt-post :
    (callbacks : Callbacks) (desc : EvtDesc) (options : Option Options) (keys : Keys)
    (reply : LockReply) (sleeps : List Bool) (args : SubArgs) (c : Context) (subers : List Suber)
    → admit (mode_of options) keys reply ≡ admitted
    → ((mode_of options).is_sync_mode || c.is_sync_mode) ≡ true
    → (args.cb_proc_evt == 0) ≡ false
    → args.evt_num ≤ length args.evt_ids
    → c.max_suber_num < 2 ^ 64
    → c.evt_subers ≡ some subers
    → IsCounted c.max_suber_num c.cur_suber_num subers
    → c.cur_suber_num < c.max_suber_num
    → all_stored subers ≡ true
    → (c' : Context) × (sub_evt true true args c ≡ ok (some (success, c')))
      × SubEffect (post_evt callbacks desc options keys reply sleeps) c c' (new_call desc args)
unfolding sub_at
sub_evt-post callbacks desc options keys reply sleeps args c subers g sync named enough small t v
      room a =
    let (idx, found) = has_free c.max_suber_num c.cur_suber_num subers v room in
    let (old, read, free) = first_suber-get is_free subers idx found in
    (
      joined subers idx (new_suber args) c,
      sub_room true true args c small named enough subers idx room (rw t refl) v found
          ∙ ground arith,
      post_inserts callbacks desc options keys reply sleeps args c g sync named enough subers t
          v.sized a idx old read free,
    )
