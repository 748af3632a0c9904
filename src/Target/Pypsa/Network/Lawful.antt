-- ===== src/Target/Pypsa/Network/Lawful.antt =====
-- What a job satisfies that `validateLinearPowerFlow` (internal/target/pypsa/powerflow.go) has no problem
-- with.
use meme.Base.{
  ◌≡◌, refl, true, false, some, List, [], ◌∷◌, ◌++◌, arith, In, Float64, Text, codes, lookup,
}
use meme.Model.Types.{Transmission}
use meme.Model.Run.{NetworkOptions, Job}
use meme.Model.Electrical.{rating}
use meme.Model.Checks.{Problem, given}
use meme.Target.Gates.Uses.{expandable_cap}
use meme.Model.Validate.Each.{
  append-nil_left, append-nil_right, passed, each-nil_at, each_entry, each_entry-nil_iff,
}
use meme.Model.Validate.Techs.{no_element}
use meme.Target.Gates.{mode_place}
use meme.Target.Pypsa.Buses.{bus_grid}
use meme.Target.Pypsa.Network.{
  electrical_carriers, ac_nodes, on_network, no_level, level_problem, level_problems,
  systemwide_constraints, unrated, rating_problem, voltage_law_problems, linear_problems,
}

pub one_network :
    (absent several : Text) (f : Text → List Problem) (cs : List Text)
    → on_network absent several f cs ≡ []
    → (c : Text) × (cs ≡ c ∷ []) × (f c ≡ [])
unfolding on_network
one_network absent several f [] h = cc
one_network absent several f (c ∷ []) h = (c, refl, h)
one_network absent several f (c ∷ d ∷ cs) h = cc

module _ (fl : Float64) where
  open fl use {F}

  -- A network that the voltage law applies to
  pub record IsLawful (j : Job F) (carrier : Text) : Type 0 where
    pub only : electrical_carriers j.model ≡ carrier ∷ []
    pub levels :
        (n : Text)
        → In n (ac_nodes carrier (bus_grid j.model))
        → no_level fl (lookup n j.model.nodes) ≡ false
    pub rated :
        (id : Text) (l : Transmission F)
        → lookup id j.model.transmission ≡ some l
        → given l.electrical ≡ true
        → expandable_cap l.capacity ≡ false
        → given (rating fl l.electrical l.capacity) ≡ true
    pub secured :
        (nw : NetworkOptions F)
        → j.experiment.network ≡ some nw
        → given nw.security ≡ true
        → (no_element j.model.constraints ≡ true)
          × (no_element (systemwide_constraints fl j.model) ≡ true)

  branch_rated :
      (l : Transmission F)
      → unrated fl l ≡ false
      → given l.electrical ≡ true
      → expandable_cap l.capacity ≡ false
      → given (rating fl l.electrical l.capacity) ≡ true
  branch_rated l h e x = ground (arith, h, e, x)

  pub linear_problems-IsLawful :
      (j : Job F) → linear_problems fl j ≡ [] → (carrier : Text) × IsLawful j carrier
  unfolding linear_problems voltage_law_problems level_problems
  linear_problems-IsLawful j h =
      let (c, only, checks) = one_network _ _ _ _ h in
      let levels = append-nil_left _ _ checks in
      let later =
        append-nil_right (level_problems fl j.model (ac_nodes c (bus_grid j.model))) _ checks in
      let arcs =
        (each_entry-nil_iff (rating_problem fl) j.model.transmission).0
          (append-nil_left _ _ later) in
      let last = append-nil_right (each_entry (rating_problem fl) j.model.transmission) _ later in
      let limits = passed mode_place _ _ [] last in
      (
        c,
        record {
          only = only;
          levels = λ n i. passed n _ _ [] (each-nil_at (level_problem fl j.model) _ n levels i);
          rated =
              λ id l e. branch_rated l (passed (codes "transmission " ++ id) _ _ [] (arcs id l e));
          secured = λ nw e u.
              let limited = rw e at limits in
              (ground (arith, limited, u), ground (arith, limited, u));
        },
      )
