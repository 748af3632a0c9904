-- ===== src/Tests/Fixtures.antt =====
-- What the tests run on: numbers in place of floats, and a small model, job and set of calls.
use meme.Base.{
  ℕ, suc, ◌+◌, ◌*◌, ◌/◌, ◌≡◌, true, false, none, some, List, [], ◌∷◌, arith, ltb, leb, ◌==◌, lt→ltb,
  ltb→lt, le→leb, leb→le, pos, pos_part, Float64, codes,
}
use meme.Model.Types.{Model, Technology, Carrier}
use meme.Model.Run.{Job, Experiment, SweepAxis, Solver}
use meme.Service.Jobs.{RunPlan, RunResult, JobRecord, queued}
use meme.Service.Simulate.{Calls, good}

pub ltb_trans : (a b c : ℕ) → ltb a b ≡ true → ltb b c ≡ true → ltb a c ≡ true
ltb_trans a b c h k = lt→ltb a c (omega (arith, ltb→lt a b h, ltb→lt b c k))

pub leb_trans : (a b c : ℕ) → leb a b ≡ true → leb b c ≡ true → leb a c ≡ true
leb_trans a b c h k = le→leb a c (omega (arith, leb→le a b h, leb→le b c k))

pub leb_of_ltb : (a b : ℕ) → ltb a b ≡ true → leb b a ≡ false
leb_of_ltb a b h = ground arith

pub ltb_irrefl : (a : ℕ) → ltb a a ≡ false
ltb_irrefl a = ground arith

pub one_positive : leb 1 0 ≡ false
one_positive = ground arith

pub suc_positive : (n : ℕ) → leb (suc n) 0 ≡ false
suc_positive n = ground arith

abbrev pub naturals : Float64
naturals = record {
  F = ℕ;
  zero = 0;
  one = 1;
  lt = ltb;
  le = leb;
  eq = ◌==◌;
  add = ◌+◌;
  mul = ◌*◌;
  div = ◌/◌;
  of_int = pos_part;
  lt_irrefl = ltb_irrefl;
  lt_trans = ltb_trans;
  le_trans = leb_trans;
  not_le_of_lt = leb_of_ltb;
  one_pos = one_positive;
  of_int_pos = suc_positive;
}

abbrev pub wind : Technology ℕ
wind = record {
  role = codes "supply";
  node = codes "north" ∷ [];
  carrier_in = [];
  carrier_out = codes "power" ∷ [];
  efficiency = none;
  flows = [];
  performance = none;
  capacity = none;
  operation = none;
  storage = none;
  demand_profile = none;
  area = none;
  source = none;
  costs = [];
  lifetime = none;
  interest_rate = none;
  cost_basis = [];
  emission_factor = none;
  annual_output_min = none;
  annual_output_max = none;
  build_year = none;
  active = none;
  demand_curtailable = false;
  dispatch = none;
  electrical = none;
  node_overrides = [];
  native = none;
}

abbrev pub power : Carrier ℕ
power = record {
  name = codes "Power";
  unit = codes "MWh";
  co2_intensity = none;
  color = [];
  native = none;
}

abbrev pub grid : Model ℕ
grid = record {
  metadata = record {
    name = codes "grid";
    version = [];
    description = [];
    currency = [];
    currency_year = pos 0;
  };
  time = record {
    start = codes "2030-01-01";
    end = codes "2030-01-02";
    resolution = codes "1H";
    subset = [];
    timesteps = [];
    weights = none;
  };
  periods = [];
  discount_rate = none;
  carriers = (codes "power", power) ∷ [];
  nodes = [];
  timeseries = [];
  technologies = (codes "wind", wind) ∷ [];
  transmission = [];
  trade = [];
  emission_limits = [];
  constraints = [];
  native = none;
}

abbrev pub solver : Solver ℕ
solver = record {
  name = codes "highs";
  time_limit = none;
  mip_gap = none;
  threads = none;
  option_keys = [];
}

-- An experiment that sweeps the axes.
abbrev pub sweeping : List (SweepAxis ℕ) → Experiment ℕ
sweeping axes = record {
  mode = codes "plan";
  objective = [];
  emission_accounting = [];
  foresight = [];
  time_aggregation = none;
  operate = none;
  alternatives = none;
  pareto = none;
  monte_carlo = none;
  power_flow = none;
  network = none;
  allow_unmet_demand = none;
  copperplate = false;
  reporting = none;
  scenarios = [];
  sweep = axes;
  solver = solver;
  custom_math = none;
  native = none;
}

abbrev pub efficiency_axis : SweepAxis ℕ
efficiency_axis = record { parameter = codes "technologies.wind.efficiency"; values = 1 ∷ 2 ∷ [] }

abbrev pub job : Job ℕ
job = record { api_key = []; model = grid; experiment = sweeping (efficiency_axis ∷ []) }

abbrev pub run_plan : RunPlan
run_plan = record {
  target = codes "pypsa";
  entrypoint = codes "model.yaml";
  command = codes "python" ∷ codes "run.py" ∷ [];
  work_dir = codes "work";
}

abbrev pub run_result : RunResult ℕ
run_result = record {
  target = [];
  index = 0;
  input_dir = [];
  plan = run_plan;
  assigned = [];
  stdout = codes "optimal";
  stderr = [];
  exit_code = pos 0;
  timed_out = false;
  error = [];
}

-- Calls that all succeed.
abbrev pub calls : Calls naturals
calls = record {
  validate = λ name j. (j, codes "short series" ∷ [], none);
  target_known = λ name. none;
  clone_job = λ j. some j;
  describe = λ e. codes "path error";
  emit = λ name j dir. good (codes "model.yaml");
  mkdirs = λ dir. none;
  plan = λ name j entrypoint dirs. good run_plan;
  run = λ p. run_result;
}

abbrev pub queued_record : JobRecord ℕ
queued_record = record {
  id = codes "1f";
  target = codes "pypsa";
  state = queued;
  warnings = [];
  results = [];
  err_msg = [];
  log = [];
  dir = codes "jobs";
  created = some 1;
  started = none;
  finished = none;
}
