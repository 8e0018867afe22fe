-- ===== src/Ioc/Effect/Tests.antt =====
-- A subscription, a synchronous post, and the end of all subscriptions.
use freely_craft_codes.Prelude.{◌≡◌, refl, true, none, some, List, ◌∷◌, [], ok, arith}
use freely_craft_codes.ThinkOs.{success, no_evt_suber}
use freely_craft_codes.Ioc.Mailbox.{EvtDesc}
use freely_craft_codes.Ioc.Conles.{SubArgs, Suber, Context, zero_suber, saved, sub_evt, unsub_evt}
use freely_craft_codes.Ioc.Lock.{mode_of, locked, no_keys, admit}
use freely_craft_codes.Ioc.Course.{done}
use freely_craft_codes.Ioc.Post.{Callbacks, post_evt}
use freely_craft_codes.Ioc.Effect.{unsub_all-post}
use freely_craft_codes.Ioc.Effect.Sub.{SubEffect, new_call, sub_evt-post}

abbrev desc : EvtDesc
desc = record { seq_id = 0; flags = 0; evt_id = 9 }

abbrev first : SubArgs
first = record { cb_proc_evt = 5; cb_priv = 6; evt_num = 1; evt_ids = 9 ∷ [] }

abbrev second : SubArgs
second = record { cb_proc_evt = 7; cb_priv = 8; evt_num = 2; evt_ids = 4 ∷ 9 ∷ [] }

abbrev subers : List Suber
subers = saved first (some (9 ∷ [])) ∷ zero_suber ∷ []

abbrev one_of_two : Context
one_of_two = record {
  mutex_depth = 0;
  max_suber_num = 2;
  cur_suber_num = 1;
  evt_subers = some subers;
  is_sync_mode = true;
}

abbrev callbacks : Callbacks
callbacks cb priv d = success

unsub_all-post_example :
    (c' : Context) × (unsub_evt none one_of_two ≡ ok (some (success, c')))
    × (c'.cur_suber_num ≡ 0)
    × (post_evt callbacks desc none no_keys locked [] c'
        ≡ done (record { result = no_evt_suber; calls = []; context = c' }))
unfolding admit mode_of
unsub_all-post_example =
    unsub_all-post callbacks desc none no_keys locked [] one_of_two subers refl refl refl refl

sub_evt-post_example :
    (c' : Context) × (sub_evt true true second one_of_two ≡ ok (some (success, c')))
    × SubEffect
        (post_evt callbacks desc none no_keys locked [])
        one_of_two
        c'
        (new_call desc second)
unfolding admit mode_of
sub_evt-post_example =
    sub_evt-post callbacks desc none no_keys locked [] second one_of_two subers refl refl refl
      (omega arith) (omega arith) refl (record { sized = refl; counted = refl }) (omega arith) refl
