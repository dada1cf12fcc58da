-- ===== src/ServerBench/Args.antt =====
-- The command line of examples/server_bench.cpp. `std::stoi` is a parameter: `none` where it throws.
pub mod Laws
use simple_rfcomm.Prelude.{Option, none, some, Bool, true, false, ℕ, List, [], ◌∷◌, if◌then◌else◌}
use simple_rfcomm.Prelude.Int.{ℤ}
use simple_rfcomm.Command.{codes, same_text, to_uint8}

-- The variables that the options set.
pub record Options : Type 0 where
  pub uuid_str : List ℕ
  pub service_name : List ℕ
  pub channel : ℕ
  pub echo_mode : Bool

abbrev pub default_bench_uuid : List ℕ
default_bench_uuid = codes "e3b0c442-98fc-1c14-9afe-4c9c2e0b5f12"

abbrev pub default_options : Options
default_options = record {
  uuid_str = default_bench_uuid;
  service_name = codes "SimpleRFCOMM HighSpeed Bench";
  channel = 0;
  echo_mode = false;
}

-- Which test of the loop an argument meets.
pub data Kind : Type 0 where
  uuid_flag channel_flag name_flag echo_flag help_flag other : Kind

unfoldable pub kind : List ℕ → Kind
kind arg =
    if same_text arg (codes "--uuid")
    then uuid_flag
    else if same_text arg (codes "--channel")
    then channel_flag
    else if same_text arg (codes "--name")
    then name_flag
    else if same_text arg (codes "--echo")
    then echo_flag
    else if same_text arg (codes "--help")
    then help_flag
    else if same_text arg (codes "-h")
    then help_flag
    else other

-- What the loop leaves: the options, the usage text, or an exception of `std::stoi`.
pub data Parsed : Type 0 where
  runs : Options → Parsed
  prints_usage : Parsed
  throws : Parsed

-- The last argument, behind which no value stands.
unfoldable pub last_arg : Kind → Options → Parsed
last_arg echo_flag o = runs (record o { echo_mode = true })
last_arg help_flag o = prints_usage
last_arg _ o = runs o

-- The loop over the arguments behind the program's name.
unfoldable pub parse_args : (List ℕ → Option ℤ) → Options → List (List ℕ) → Parsed
parse_args stoi o [] = runs o
parse_args stoi o (arg ∷ []) = last_arg (kind arg) o
parse_args stoi o (arg ∷ value ∷ rest) = elim (kind arg) [
  | uuid_flag ↦ parse_args stoi (record o { uuid_str = value }) rest
  | channel_flag ↦ elim (stoi value) [
    | none ↦ throws
    | some z ↦ parse_args stoi (record o { channel = to_uint8 z }) rest
  ]
  | name_flag ↦ parse_args stoi (record o { service_name = value }) rest
  | echo_flag ↦ parse_args stoi (record o { echo_mode = true }) (value ∷ rest)
  | help_flag ↦ prints_usage
  | other ↦ parse_args stoi o (value ∷ rest)
]
