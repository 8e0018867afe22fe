-- ===== src/Ioc/Post/Hearing.antt =====
-- Which subscribers a post reaches.
use freely_craft_codes.Prelude.{
  ℕ, zero, suc, ◌≤◌, ◌≡◌, refl, Bool, true, false, not, ◌&&◌, ◌||◌, Option, none, some, List, ◌∷◌,
  [], take, length, leb, leb→le, ◌==◌, if◌then◌else◌, arith,
}
use freely_craft_codes.Ioc.Mailbox.{EvtDesc}
use freely_craft_codes.Ioc.Conles.{Suber}
use freely_craft_codes.Ioc.Course.{done}
use freely_craft_codes.Ioc.Post.{has_evt_id, hears}

abbrev pub is_among : ℕ → List ℕ → Bool
is_among evt_id [] = false
is_among evt_id (id ∷ ids) = id == evt_id || is_among evt_id ids

abbrev pub wants_among : EvtDesc → ℕ → Option (List ℕ) → Bool
wants_among desc evt_num none = false
wants_among desc evt_num (some ids) = is_among desc.evt_id (take evt_num ids)

-- It has a callback, and the event's id is one of its ids.
abbrev pub wants : EvtDesc → Suber → Bool
wants desc s = not (s.cb_proc_evt == 0) && wants_among desc s.evt_num s.evt_ids

abbrev pub has_all : ℕ → Option (List ℕ) → Bool
has_all evt_num none = true
has_all evt_num (some ids) = leb evt_num (length ids)

-- Each has stored as many ids as it says.
abbrev pub all_stored : List Suber → Bool
all_stored [] = true
all_stored (s ∷ subers) = has_all s.evt_num s.evt_ids && all_stored subers

-- The subscribers that want the event, in the order of the table.
abbrev pub wanting : EvtDesc → List Suber → List Suber
wanting desc [] = []
wanting desc (s ∷ subers) =
    let rest = wanting desc subers in if wants desc s then s ∷ rest else rest

has_evt_id-cons :
    (evt_id n i x : ℕ) (ids : List ℕ)
    → has_evt_id evt_id n (suc i) (x ∷ ids) ≡ has_evt_id evt_id n i ids
unfolding has_evt_id
has_evt_id-cons evt_id zero i x ids = refl
has_evt_id-cons evt_id (suc n) i x ids = ground (arith, has_evt_id-cons evt_id n (suc i) x ids)

has_evt_id_lem :
    (evt_id n : ℕ) (ids : List ℕ)
    → n ≤ length ids
    → has_evt_id evt_id n 0 ids ≡ done (is_among evt_id (take n ids))
unfolding has_evt_id
has_evt_id_lem evt_id zero ids h = refl
has_evt_id_lem evt_id (suc n) [] h = absurd (omega arith)
has_evt_id_lem evt_id (suc n) (x ∷ ids) h =
    ground (arith, has_evt_id-cons evt_id n 0 x ids, has_evt_id_lem evt_id n ids (omega arith))

pub hears_lem :
    (desc : EvtDesc) (s : Suber)
    → has_all s.evt_num s.evt_ids ≡ true
    → hears desc s ≡ done (wants desc s)
hears_lem desc s h = by_ids s.evt_ids refl
  where
    by_ids : (ids : Option (List ℕ)) → s.evt_ids ≡ ids → hears desc s ≡ done (wants desc s)
    by_ids none e = ground arith
    by_ids (some ids) e = ground (
      arith,
      has_evt_id_lem desc.evt_id s.evt_num ids (leb→le s.evt_num (length ids) (ground arith)),
    )
