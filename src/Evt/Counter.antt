-- ===== src/Evt/Counter.antt =====
-- The private data of the subscribers in PlatIF_EVT_UT_useGtest/UT_T1_PubSubEvt_Typical.cxx: each
-- counts its callbacks, and posts the semaphore that the test waits for when it has counted them
-- all.
use freely_craft_codes.Prelude.{
  ℕ, zero, suc, ◌+◌, ◌<◌, ◌≤◌, ◌^◌, ◌≡◌, refl, sym, ap, ◌∙◌, Bool, true, false, ◌==◌, ltb,
  if◌then◌else◌, ℕ_discrete, arith,
}
use freely_craft_codes.ThinkOs.{ulong}

-- What a callback keeps: the count, how often it has posted its semaphore, and whether its checks
-- have all held.
pub record Priv : Type 0 where
  pub proced_cnt : ℕ
  pub sem_posts : ℕ
  pub expected : Bool

abbrev pub zero_priv : Priv
zero_priv = record { proced_cnt = 0; sem_posts = 0; expected = true }

-- One more is counted; at `total` the semaphore is posted.
abbrev pub count_call : ℕ → Priv → Priv
count_call total s =
    let cnt = ulong (s.proced_cnt + 1) in
    record s { proced_cnt = cnt; sem_posts = if cnt == total then s.sem_posts + 1 else s.sem_posts }

-- Whether the wait for a semaphore returns.
abbrev pub is_posted : Priv → Bool
is_posted s = ltb 0 s.sem_posts

-- So many calls are counted.
abbrev pub counted : ℕ → ℕ → Priv → Priv
counted total zero s = s
counted total (suc n) s = counted total n (count_call total s)

-- Up to the total, the semaphore is not posted; at the total it is, once.
counted-below :
    (total c n : ℕ) (e : Bool)
    → c + n < total
    → total < 2 ^ 64
    → counted total n (record { proced_cnt = c; sem_posts = 0; expected = e })
      ≡ record { proced_cnt = c + n; sem_posts = 0; expected = e }
counted-below total c zero e h few =
    ap (λ k. record { proced_cnt = k; sem_posts = 0; expected = e }) (omega arith)
counted-below total c (suc n) e h few =
    let next : ulong (c + 1) ≡ c + 1 = omega arith in
    let more : (c + 1 == total) ≡ false = ground arith in
    rw (next, more, counted-below total (c + 1) n e (omega arith) few)
      (ap (λ k. record { proced_cnt = k; sem_posts = 0; expected = e }) (omega arith))

counted-to :
    (total c n : ℕ) (e : Bool)
    → c + suc n ≡ total
    → total < 2 ^ 64
    → counted total (suc n) (record { proced_cnt = c; sem_posts = 0; expected = e })
      ≡ record { proced_cnt = total; sem_posts = 1; expected = e }
counted-to total c zero e h few =
    let next : ulong (c + 1) ≡ total = omega arith in
    let same : (total == total) ≡ true = ground arith in rw (next, same) refl
counted-to total c (suc n) e h few =
    let next : ulong (c + 1) ≡ c + 1 = omega arith in
    let more : (c + 1 == total) ≡ false = ground arith in
    rw (next, more) (counted-to total (c + 1) n e (omega arith) few)

-- What a subscriber's private data are after n of these calls.
abbrev pub posted_at : ℕ → ℕ → Priv
posted_at total n = record {
  proced_cnt = n;
  sem_posts = if n == total then 1 else 0;
  expected = true;
}

pub counted_lem :
    (total n : ℕ)
    → 0 < total
    → n ≤ total
    → total < 2 ^ 64
    → counted total n zero_priv ≡ posted_at total n
counted_lem total n pos h few = elim (ℕ_discrete n total) [
  | yes e ↦ counted_all n e
  | no ne ↦
      let more : (n == total) ≡ false = ground (arith, ne) in
      rw more (
        counted-below total 0 n true (omega (arith, ne)) few
        ∙ ap (λ k. record { proced_cnt = k; sem_posts = 0; expected = true }) (omega arith))
]
  where
    counted_all : (k : ℕ) → k ≡ total → counted total k zero_priv ≡ posted_at total k
    counted_all zero e = absurd (omega arith)
    counted_all (suc k) e =
        let same : (suc k == total) ≡ true = ground (arith, e) in
        rw same (
          counted-to total 0 k true (omega (arith, e)) few
          ∙ ap (λ j. record { proced_cnt = j; sem_posts = 1; expected = true }) (sym e))

-- What they are after all of them.
abbrev pub all_counted : ℕ → Priv
all_counted total = record { proced_cnt = total; sem_posts = 1; expected = true }

pub counted-all :
    (total : ℕ) → 0 < total → total < 2 ^ 64 → counted total total zero_priv ≡ all_counted total
counted-all total pos few =
    let same : (total == total) ≡ true = ground arith in
    counted_lem total total pos (omega arith) few
    ∙ ap (λ b. record { proced_cnt = total; sem_posts = if b then 1 else 0; expected = true }) same
