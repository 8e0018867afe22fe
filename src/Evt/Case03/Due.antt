-- ===== src/Evt/Case03/Due.antt =====
-- What waits in the queue, and how often each callback will be called for it.
use freely_craft_codes.Prelude.{
  zero, replicate, append_assoc, ℕ, suc, ◌+◌, ◌≡◌, refl, ap, List, ◌∷◌, ◌++◌, [], length, arith,
}
use freely_craft_codes.Evt.Types.{EvtDesc}
use freely_craft_codes.Evt.Case03.{
  Move, asks, takes, Who, is_a, is_b, is_c, is_d, Kind, request, response,
}
use freely_craft_codes.Evt.Case03.Counts.{desc_of, heard_by}

-- The events in the queue, with their kinds and numbers.
abbrev pub kinds : List (Kind × ℕ) → List Kind
kinds [] = []
kinds (e ∷ es) = e.0 ∷ kinds es

abbrev pub descs : List (Kind × ℕ) → List EvtDesc
descs [] = []
descs (e ∷ es) = desc_of e ∷ descs es

pub kinds-append : (xs ys : List (Kind × ℕ)) → kinds (xs ++ ys) ≡ kinds xs ++ kinds ys
kinds-append [] ys = refl
kinds-append (x ∷ xs) ys = ap (λ l. x.0 ∷ l) (kinds-append xs ys)

pub descs-append : (xs ys : List (Kind × ℕ)) → descs (xs ++ ys) ≡ descs xs ++ descs ys
descs-append [] ys = refl
descs-append (x ∷ xs) ys = ap (λ l. desc_of x ∷ l) (descs-append xs ys)

pub length-kinds : (xs : List (Kind × ℕ)) → length (kinds xs) ≡ length (descs xs)
length-kinds [] = refl
length-kinds (x ∷ xs) = omega (arith, length-kinds xs)

abbrev pub num_asks : List Move → ℕ
num_asks [] = 0
num_asks (asks ∷ moves) = suc (num_asks moves)
num_asks (takes n ∷ moves) = n + num_asks moves

-- How often a subscriber will be called: B for each request, the others for each event, since every
-- request becomes a response.
abbrev pub due : Who → List Kind → ℕ
due who [] = 0
due is_b (k ∷ ks) = heard_by is_b k + due is_b ks
due who (k ∷ ks) = 1 + due who ks

pub due-request : (who : Who) (ks : List Kind) → due who (ks ++ request ∷ []) ≡ suc (due who ks)
due-request is_a [] = refl
due-request is_b [] = refl
due-request is_c [] = refl
due-request is_d [] = refl
due-request is_a (k ∷ ks) = omega (arith, due-request is_a ks)
due-request is_b (k ∷ ks) = omega (arith, due-request is_b ks)
due-request is_c (k ∷ ks) = omega (arith, due-request is_c ks)
due-request is_d (k ∷ ks) = omega (arith, due-request is_d ks)

-- Taking a request and queueing its response, and taking a response.
pub due-answer :
    (who : Who) (ks : List Kind)
    → due who (request ∷ ks) ≡ heard_by who request + due who (ks ++ response ∷ [])
due-answer is_a [] = refl
due-answer is_b [] = refl
due-answer is_c [] = refl
due-answer is_d [] = refl
due-answer is_a (k ∷ ks) = omega (arith, due-answer is_a ks)
due-answer is_b (k ∷ ks) = omega (arith, due-answer is_b ks)
due-answer is_c (k ∷ ks) = omega (arith, due-answer is_c ks)
due-answer is_d (k ∷ ks) = omega (arith, due-answer is_d ks)

pub due-answers :
    (who : Who) (n : ℕ) (ks : List Kind)
    → n + due who (request ∷ ks)
      ≡ heard_by who request + due who (ks ++ (replicate n request ++ response ∷ []))
due-answers who zero ks = omega (arith, due-answer who ks)
due-answers who (suc n) ks = omega (
  arith,
  due-answers who n (ks ++ request ∷ []),
  due-request who (request ∷ ks),
  ap (due who) (append_assoc ks (request ∷ []) (replicate n request ++ response ∷ [])),
)

pub due-response :
    (who : Who) (ks : List Kind) → due who (response ∷ ks) ≡ heard_by who response + due who ks
due-response is_a ks = refl
due-response is_b ks = refl
due-response is_c ks = refl
due-response is_d ks = refl

pub due-nil : (who : Who) → due who [] ≡ 0
due-nil is_a = refl
due-nil is_b = refl
due-nil is_c = refl
due-nil is_d = refl
