-- ===== src/Model/Enums.antt =====
-- The string enums of internal/model (types.go, constraint.go, electrical.go, experiment.go): their
-- names and `Valid` methods.
use meme.Base.{Bool, ◌||◌, [], Text, codes, str_eq}

abbrev pub supply : Text
supply = codes "supply"

abbrev pub demand : Text
demand = codes "demand"

abbrev pub conversion : Text
conversion = codes "conversion"

abbrev pub storage : Text
storage = codes "storage"

-- `Role.Valid`
unfoldable pub valid_role : Text → Bool
valid_role r = str_eq r supply || (str_eq r demand || (str_eq r conversion || str_eq r storage))

abbrev pub overnight : Text
overnight = codes "overnight"

abbrev pub annualized : Text
annualized = codes "annualized"

-- `CostBasis.Valid`
unfoldable pub valid_cost_basis : Text → Bool
valid_cost_basis c = str_eq c [] || (str_eq c overnight || str_eq c annualized)

-- `Foresight.Valid`
unfoldable pub valid_foresight : Text → Bool
valid_foresight f = str_eq f [] || (str_eq f (codes "perfect") || str_eq f (codes "myopic"))

abbrev pub min_cost : Text
min_cost = codes "min_cost"

abbrev pub min_emissions : Text
min_emissions = codes "min_emissions"

-- `Objective.Valid`
unfoldable pub valid_objective : Text → Bool
valid_objective o = str_eq o [] || (str_eq o min_cost || str_eq o min_emissions)

-- `Variable.Valid`
unfoldable pub valid_variable : Text → Bool
valid_variable v =
    str_eq v (codes "capacity")
    || (str_eq v (codes "flow_out")
        || (str_eq v (codes "flow_in")
            || (str_eq v (codes "storage_cap") || str_eq v (codes "emissions"))))

-- The senses of a constraint and of an emission limit
unfoldable pub valid_sense : Text → Bool
valid_sense s = str_eq s (codes "<=") || (str_eq s (codes ">=") || str_eq s (codes "=="))

abbrev pub flow_in : Text
flow_in = codes "in"

abbrev pub flow_out : Text
flow_out = codes "out"

abbrev pub line : Text
line = codes "line"

abbrev pub transformer : Text
transformer = codes "transformer"

-- `ElectricalKind.Valid`
unfoldable pub valid_kind : Text → Bool
valid_kind k = str_eq k line || str_eq k transformer

abbrev pub transport : Text
transport = codes "transport"

abbrev pub linear_power_flow : Text
linear_power_flow = codes "linear_power_flow"

-- `NetworkModel.Valid`
unfoldable pub valid_network : Text → Bool
valid_network n = str_eq n [] || (str_eq n transport || str_eq n linear_power_flow)
