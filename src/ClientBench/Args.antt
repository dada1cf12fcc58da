-- ===== src/ClientBench/Args.antt =====
-- The command line of examples/client_bench.cpp. The conversions of the C++ library and the type
-- `double` are parameters.
pub mod Laws
use simple_rfcomm.Prelude.{ℕ, Option, none, some, Bool, true, false, List, [], ◌∷◌, if◌then◌else◌}
use simple_rfcomm.Prelude.Int.{ℤ, pos}
use simple_rfcomm.Command.{codes, same_text}
use simple_rfcomm.ServerBench.Args.{default_bench_uuid}

-- `std::stoi`, `std::stod` and `std::stoul`, which answer `none` where they throw; 2.0; and the
-- number of bytes of so many megabytes, with `none` where the conversion to `size_t` is undefined.
pub record Numerals : Type 1 where
  pub Double : Type 0
  pub stoi : List ℕ → Option ℤ
  pub stod : List ℕ → Option Double
  pub stoul : List ℕ → Option ℕ
  pub two : Double
  pub bytes_of : Double → Option ℕ

pub record Options (D : Type 0) : Type 0 where
  pub uuid_str : List ℕ
  pub direct_channel : ℤ
  pub size_mb : D
  pub chunk_kb : ℕ
  pub echo_mode : Bool

-- Which test of the loop an argument meets.
pub data Kind : Type 0 where
  uuid_flag channel_flag size_flag chunk_flag echo_flag other : Kind

unfoldable pub kind : List ℕ → Kind
kind arg =
    if same_text arg (codes "--uuid")
    then uuid_flag
    else if same_text arg (codes "--channel")
    then channel_flag
    else if same_text arg (codes "--size")
    then size_flag
    else if same_text arg (codes "--chunk")
    then chunk_flag
    else if same_text arg (codes "--echo")
    then echo_flag
    else other

-- The last argument, behind which no value stands.
unfoldable pub last_arg : {D : Type 0} → Kind → Options D → Options D
last_arg echo_flag o = record o { echo_mode = true }
last_arg _ o = o

module _ (n : Numerals) where
  abbrev pub default_options : Options n.Double
  default_options = record {
    uuid_str = default_bench_uuid;
    direct_channel = pos 0;
    size_mb = n.two;
    chunk_kb = 16;
    echo_mode = false;
  }

  -- The loop over the arguments behind the target; `none` where a conversion throws.
  unfoldable pub parse_args : Options n.Double → List (List ℕ) → Option (Options n.Double)
  parse_args o [] = some o
  parse_args o (arg ∷ []) = some (last_arg (kind arg) o)
  parse_args o (arg ∷ value ∷ rest) = elim (kind arg) [
    | uuid_flag ↦ parse_args (record o { uuid_str = value }) rest
    | channel_flag ↦ elim (n.stoi value) [
      | none ↦ none
      | some z ↦ parse_args (record o { direct_channel = z }) rest
    ]
    | size_flag ↦ elim (n.stod value) [
      | none ↦ none
      | some d ↦ parse_args (record o { size_mb = d }) rest
    ]
    | chunk_flag ↦ elim (n.stoul value) [
      | none ↦ none
      | some k ↦ parse_args (record o { chunk_kb = k }) rest
    ]
    | echo_flag ↦ parse_args (record o { echo_mode = true }) (value ∷ rest)
    | other ↦ parse_args o (value ∷ rest)
  ]
