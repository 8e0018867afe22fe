-- ===== src/ThinkOs.antt =====
-- ThinkOS: the result codes that every platform interface returns, and the widths of its integers
-- (ThinkOS/TOS_BaseObjectTypes.h, ThinkOS/TOS_BaseTypes.h).
use freely_craft_codes.Prelude.{ℕ, ◌%◌, ◌^◌, Bool, true, false}

-- `TOS_Result_T`, a constructor for each value. Where the enum gives a value two names, the second
-- is a constant below.
pub data TosResult : Type 0 where
  success already failure : TosResult
  not_implemented invalid not_found not_supported not_available not_ready : TosResult
  not_permitted not_authorized not_authenticated : TosResult
  not_enough_memory not_enough_resource not_enough_space not_enough_data : TosResult
  not_enough_buffer not_enough_storage not_enough_power not_enough_battery : TosResult
  not_enough_signal not_enough_bandwidth not_enough_cpu not_enough_io : TosResult
  not_enough_network not_enough_link not_enough_service not_enough_connection : TosResult
  not_enough_channel not_enough_device not_enough_driver not_enough_interface : TosResult
  not_enough_protocol not_enough_port not_enough_socket : TosResult
  not_reged too_many_reged bad_state too_many_pubed_events too_many_subed_events : TosResult
  no_evt_suber timeout bug not_tested_bug : TosResult

-- `TOS_YES` and `TOS_NO`, which share the values 1 and 0.
abbrev pub tos_yes : TosResult
tos_yes = already

abbrev pub tos_no : TosResult
tos_no = success

pub TosResult-discrete : Discrete TosResult
TosResult-discrete = hlevel

-- `result == TOS_RESULT_SUCCESS`
abbrev pub is_success : TosResult → Bool
is_success success = true
is_success _ = false

-- The value of an enumerator: `pos n` is n, `negsuc n` is -(n + 1).
pub data ℤ : Type 0 where
  pos : ℕ → ℤ
  negsuc : ℕ → ℤ

pub code : TosResult → ℤ
code success = pos 0
code already = pos 1
code failure = negsuc 0
code not_implemented = negsuc 1
code invalid = negsuc 2
code not_found = negsuc 3
code not_supported = negsuc 4
code not_available = negsuc 5
code not_ready = negsuc 6
code not_permitted = negsuc 7
code not_authorized = negsuc 8
code not_authenticated = negsuc 9
code not_enough_memory = negsuc 10
code not_enough_resource = negsuc 11
code not_enough_space = negsuc 12
code not_enough_data = negsuc 13
code not_enough_buffer = negsuc 14
code not_enough_storage = negsuc 15
code not_enough_power = negsuc 16
code not_enough_battery = negsuc 17
code not_enough_signal = negsuc 18
code not_enough_bandwidth = negsuc 19
code not_enough_cpu = negsuc 20
code not_enough_io = negsuc 21
code not_enough_network = negsuc 22
code not_enough_link = negsuc 23
code not_enough_service = negsuc 24
code not_enough_connection = negsuc 25
code not_enough_channel = negsuc 26
code not_enough_device = negsuc 27
code not_enough_driver = negsuc 28
code not_enough_interface = negsuc 29
code not_enough_protocol = negsuc 30
code not_enough_port = negsuc 31
code not_enough_socket = negsuc 32
code not_reged = negsuc 33
code too_many_reged = negsuc 34
code bad_state = negsuc 35
code too_many_pubed_events = negsuc 36
code too_many_subed_events = negsuc 37
code no_evt_suber = negsuc 38
code timeout = negsuc 39
code bug = negsuc 99
code not_tested_bug = negsuc 100

-- Conversions to `uint16_t`, `uint32_t` and a 64-bit `unsigned long`.
abbrev pub u16 : ℕ → ℕ
u16 n = n % 2 ^ 16

abbrev pub u32 : ℕ → ℕ
u32 n = n % 2 ^ 32

abbrev pub ulong : ℕ → ℕ
ulong n = n % 2 ^ 64
