-- ===== src/Ioc/Thread/Moves.antt =====
-- What single looks and replays of a thread do.
use freely_craft_codes.Prelude.{◌≡◌, refl, true, false, some, List, ◌∷◌, [], ok, arith}
use freely_craft_codes.ThinkOs.{TosResult}
use freely_craft_codes.Ioc.Mailbox
use freely_craft_codes.Ioc.Mailbox.{
  EvtDesc, Mailbox, nothing, one, take_empty, take_full, after_take,
}
use freely_craft_codes.Ioc.Mailbox.Steps.{idle_of}
use freely_craft_codes.Ioc.Cache.{attempt, attempted}
use freely_craft_codes.Ioc.Cache.Contents
use freely_craft_codes.Ioc.Cache.Contents.{
  cached_num_of, replay_empty, replay_first, attempted-Holds, left_after, post_cached-Holds,
}
use freely_craft_codes.Ioc.Conles.{Suber}
use freely_craft_codes.Ioc.Thread.{looking, calling, exited, is_idle, look, replay, point_after}

pub look_exits : (s : Suber) → s.should_exit ≡ true → is_idle s ≡ true → look s ≡ ok (exited, s)
unfolding look
look_exits s e i = rw (e, i) refl

pub look_waits : (s : Suber) → s.should_exit ≡ false → is_idle s ≡ true → look s ≡ ok (looking, s)
unfolding look
look_waits s e i = rw (e, take_empty s.mailbox (ground (arith, i))) refl

pub look_takes :
    (s : Suber) (desc : EvtDesc)
    → Mailbox.Holds s.mailbox (some desc)
    → look s ≡ ok (calling desc, record s { mailbox = after_take s.mailbox })
unfolding look
look_takes s desc (one same q h e) =
    let busy_now : is_idle s ≡ false = idle_of s.mailbox (some desc) (one desc q h e) in
    ground (arith, take_full desc s.mailbox q h e, busy_now)

pub replay_busy :
    (answer : EvtDesc → TosResult) (s : Suber)
    → is_idle s ≡ false
    → replay answer s ≡ ok (looking, s)
unfolding replay
replay_busy answer s b = rw b refl

pub replay_nothing :
    (answer : EvtDesc → TosResult) (s : Suber)
    → is_idle s ≡ true
    → Contents.Holds s.cache []
    → replay answer s ≡ ok (looking, s)
unfolding replay
replay_nothing answer s i store = rw (i, replay_empty answer s.cache store) refl

pub replay_offers :
    (answer : EvtDesc → TosResult) (s : Suber) (desc : EvtDesc) (cached : List EvtDesc)
    → is_idle s ≡ true
    → Contents.Holds s.cache (desc ∷ cached)
    → let a = attempt (answer desc) desc in
      replay answer s ≡ ok (point_after a, record s { cache = attempted a s.cache })
unfolding replay
replay_offers answer s desc cached i store =
    rw (i, replay_first answer desc s.cache cached store) refl
