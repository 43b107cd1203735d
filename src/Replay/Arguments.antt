-- ===== src/Replay/Arguments.antt =====
-- `parseArgs` and `main` of engine/tools/replay/replayer.cpp. `atoi` is that of the C library.
use real_time_paper_trading.Base.{
  true, false, Option, none, some, List, [], ◌∷◌, if◌then◌else◌, Text, ℤ, pos,
}
use real_time_paper_trading.Client.{same_text}
use real_time_paper_trading.Replay.{Args}
use real_time_paper_trading.Replay.Names

abbrev pub default_args : Args
default_args = record {
  mode = [];
  in_path = [];
  speed = Names.real;
  factor = pos 1;
  measure_pop = false;
  golden_path = [];
  update_golden = false;
  price_decimals = 1;
  quantity_decimals = 8;
  symbol = Names.btc_usd;
}

-- The options with a value, the switches, and what is skipped.
pub data Valued : Type 0 where
  in_value speed_value factor_value golden_value symbol_value : Valued

pub data Kind : Type 0 where
  valued : Valued → Kind
  measure_pop_switch update_golden_switch unknown : Kind

unfoldable pub kind_of : Text → Kind
kind_of arg =
    if same_text arg Names.in_flag
    then valued in_value
    else if same_text arg Names.speed
    then valued speed_value
    else if same_text arg Names.factor
    then valued factor_value
    else if same_text arg Names.measure_pop
    then measure_pop_switch
    else if same_text arg Names.golden
    then valued golden_value
    else if same_text arg Names.update_golden
    then update_golden_switch
    else if same_text arg Names.symbol
    then valued symbol_value
    else unknown

-- The arguments, the end of the program with status 2, or a string made of the null pointer that
-- follows the last argument.
pub data Parsed : Type 0 where
  parsed : Args → Parsed
  usage null_argument : Parsed

unfoldable pub switched : Args → Kind → Args
switched args (valued v) = args
switched args measure_pop_switch = record args { measure_pop = true }
switched args update_golden_switch = record args { update_golden = true }
switched args unknown = args

unfoldable pub waiting_for : Kind → Option Valued
waiting_for (valued v) = some v
waiting_for measure_pop_switch = none
waiting_for update_golden_switch = none
waiting_for unknown = none

-- The test after the loop.
unfoldable pub required : Args → Parsed
required args = elim args.in_path [ [] ↦ usage | c ∷ path ↦ parsed args ]

module _ (atoi : Text → ℤ) where
  unfoldable pub with_value : Args → Valued → Text → Args
  with_value args in_value value = record args { in_path = value }
  with_value args speed_value value = record args { speed = value }
  with_value args factor_value value = record args { factor = atoi value }
  with_value args golden_value value = record args { golden_path = value }
  with_value args symbol_value value = record args { symbol = value }

  -- The loop, with the option whose value `next` reads.
  unfoldable pub read_args : Args → Option Valued → List Text → Parsed
  read_args args none [] = required args
  read_args args (some v) [] = null_argument
  read_args args none (arg ∷ rest) =
      read_args (switched args (kind_of arg)) (waiting_for (kind_of arg)) rest
  read_args args (some v) (value ∷ rest) = read_args (with_value args v value) none rest

  -- After the name of the program.
  unfoldable pub parse_args : List Text → Parsed
  parse_args [] = usage
  parse_args (mode ∷ rest) = read_args (record default_args { mode = mode }) none rest

-- What `main` does with the arguments.
pub data Command : Type 0 where
  runs_bench runs_verify : Args → Command
  wrong_usage : Command

unfoldable pub command : Args → Command
command args =
    if same_text args.mode Names.bench
    then runs_bench args
    else if same_text args.mode Names.verify
    then (elim args.golden_path [ [] ↦ wrong_usage | c ∷ path ↦ runs_verify args ])
    else wrong_usage
