-- ===== src/Evt/Psdb/Rows.antt =====
-- A row of a table: who published or subscribed, and the ids, copied from the caller's array.
use freely_craft_codes.Prelude.{
  ℕ, zero, suc, ◌+◌, ◌≤◌, ◌≡◌, refl, ◌∙◌, ap, Bool, true, false, Option, List, [], ◌∷◌, ◌++◌, Run,
  ok, fault, ◌>>=◌, or_fault, get_elem?, set, take, replicate, length, ltb, Option-cases, inl, inr,
  if◌then◌else◌, arith,
}
use freely_craft_codes.Evt.Types.{EvtSubArgs}

-- `_TOS_EvtPBDB_RoleType_T`
pub data Role : Type 0 where
  evt_puber evt_suber : Role

pub Role-discrete : Discrete Role
Role-discrete = hlevel

abbrev pub is_role : Role → Role → Bool
is_role evt_puber evt_puber = true
is_role evt_suber evt_suber = true
is_role _ _ = false

-- `_EvtPSDB_Row_T`. `EvtPuberID` and `EvtSuberID` share their storage in the union; `evt_ids` is
-- what can be read behind `EvtIDs`: `num_ids` cells and those of the struct's tail. `none` is NULL.
pub record Row : Type 0 where
  pub role_type : Role
  pub evt_oper_id : ℕ
  pub evt_sub_args : Option EvtSubArgs
  pub num_ids : ℕ
  pub evt_ids : List ℕ

-- `for(num...) pRow->EvtIDs[num] = EvtIDs[num];`
unfoldable pub copy_ids : ℕ → ℕ → List ℕ → List ℕ → Run (List ℕ)
copy_ids zero num source cells = ok cells
copy_ids (suc rounds) num source cells = do
  evt_id ← or_fault (get_elem? source num)
  written ← (if ltb num (length cells) then ok (set cells num evt_id) else fault)
  copy_ids rounds (suc num) source written

-- The cells of a row that `calloc` has zeroed, after the copy.
unfoldable pub fill_ids : ℕ → ℕ → List ℕ → Run (List ℕ)
unfolding copy_ids
fill_ids tail_cells num_ids source = copy_ids num_ids 0 source (replicate (num_ids + tail_cells) 0)

copy_ids-cons :
    (n i x y : ℕ) (source cells : List ℕ)
    → copy_ids n (suc i) (x ∷ source) (y ∷ cells) ≡ (copy_ids n i source cells >>= λ c. ok (y ∷ c))
unfolding copy_ids
copy_ids-cons zero i x y source cells = refl
copy_ids-cons (suc n) i x y source cells = elim (Option-cases (get_elem? source i)) [
  | inl e ↦ ground arith
  | inr (a, e) ↦ ground (arith, copy_ids-cons n (suc i) x y source (set cells i a))
]

-- The copy stays in range if the caller's array has the ids that it is said to have.
pub fill_ids_lem :
    (tail_cells num_ids : ℕ) (source : List ℕ)
    → num_ids ≤ length source
    → fill_ids tail_cells num_ids source ≡ ok (take num_ids source ++ replicate tail_cells 0)
unfolding fill_ids
fill_ids_lem tail_cells zero source h = ap (λ n. ok (replicate n 0)) (omega arith)
fill_ids_lem tail_cells (suc n) [] h = absurd (omega arith)
fill_ids_lem tail_cells (suc n) (x ∷ source) h =
    let count : suc n + tail_cells ≡ suc (n + tail_cells) = omega arith in
    let fresh : List ℕ = replicate (n + tail_cells) 0 in
    let step : copy_ids (suc n) 0 (x ∷ source) (0 ∷ fresh) ≡ copy_ids n 1 (x ∷ source) (x ∷ fresh) =
      ground arith in
    ap (λ m. copy_ids (suc n) 0 (x ∷ source) (replicate m 0)) count
    ∙ step
    ∙ copy_ids-cons n 0 x x source fresh
    ∙ ap (λ m. m >>= λ c. ok (x ∷ c)) (fill_ids_lem tail_cells n source (omega arith))
