-- ===== src/Ioc/Conles/Tests.antt =====
-- A context for two subscribers, one of them there, and uses of its laws.
use freely_craft_codes.Prelude.{
  ◌≡◌, refl, true, false, some, ◌∷◌, replicate, ok, ◌-◌, ◌^◌, arith, [],
}
use freely_craft_codes.ThinkOs.{success}
use freely_craft_codes.Ioc.Conles.{
  SubArgs, UnsubArgs, Context, zero_suber, saved, find_suber, unsub_at, stopped, unsub_evt,
}
use freely_craft_codes.Ioc.Conles.Count.{IsValid}
use freely_craft_codes.Ioc.Conles.Subscribe.{SubOutcome, sub_evt_lem}

abbrev args : SubArgs
args = record { cb_proc_evt = 5; cb_priv = 6; evt_num = 1; evt_ids = 9 ∷ [] }

abbrev one_of_two : Context
one_of_two = record {
  mutex_depth = 0;
  max_suber_num = 2;
  cur_suber_num = 1;
  evt_subers = some (saved args (some (9 ∷ [])) ∷ zero_suber ∷ []);
  is_sync_mode = false;
}

one_of_two-IsValid : IsValid one_of_two
one_of_two-IsValid = record {
  small = omega arith;
  subers = record { sized = refl; counted = refl };
}

-- A NULL callback matches a free place, and the counter wraps.
abbrev null_args : UnsubArgs
null_args = record { cb_proc_evt = 0; cb_priv = 0 }

abbrev nobody : Context
nobody = record one_of_two { cur_suber_num = 0; evt_subers = some (replicate 2 zero_suber) }

unsub-null :
    unsub_evt (some null_args) nobody
    ≡ ok (some (success, record nobody { cur_suber_num = 2 ^ 64 - 1 }))
unfolding unsub_evt unsub_at find_suber stopped
unsub-null = refl

sub_evt_lem_example : SubOutcome true true args one_of_two
sub_evt_lem_example = sub_evt_lem true true args one_of_two one_of_two-IsValid refl (omega arith)
