-- ===== src/Target/Pypsa/Flow/Agreed.antt =====
-- The emission of a power flow after its validation: `powerFlowOf` and `validatePowerFlow` of
-- internal/target/pypsa/powerflow.go.
use meme.Base.{
  ◌≡◌, refl, ap, ◌⊎◌, inl, inr, Bool, true, false, Option, none, some, List, [], ◌∷◌, In, All,
  Float64, Text, some_injective, lookup, get_or_else, if◌then◌else◌,
}
use meme.Model.Run.{Job}
use meme.Target.Pypsa.Flow.{power_flow_problems}
use meme.Target.Pypsa.Flow.Held.{setpoints_by_node}
use meme.Target.Pypsa.Flow.Emitted.{PowerFlow, name_of, voltage_setpoints, power_flow_of}
use meme.Target.Pypsa.Flow.Compared.{AllActive, voltage_setpoints-Covers}
use meme.Target.Pypsa.Flow.Solvable.{IsSolvable, power_flow_problems-IsSolvable}

module _ (fl : Float64) where
  open fl use {F, eq}

  -- The set-points that are compared at a node start with one that the value is, or equals.
  pub record IsAgreed (j : Job F) (pf : PowerFlow F) (n : Text) (v : F) : Type 0 where
    pub name : Text
    pub value : F
    pub others : List (Text × F)
    pub compared :
        lookup n (setpoints_by_node fl pf.carrier pf.slack j.model) ≡ some ((name, value) ∷ others)
    pub agree : All (λ (other, w). eq w value ≡ true) others
    pub emitted : (v ≡ value) ⊎ (eq v value ≡ true)

  one_of_them :
      (name : Text) (v w : F) (sps : List (Text × F))
      → All (λ (other, u). eq u w ≡ true) sps
      → In (name, v) sps
      → eq v w ≡ true
  one_of_them name v w [] a i = absurd i
  one_of_them name v w (sp ∷ sps) (e, a) (inl p) = rw (ap (λ z. z.1) p) e
  one_of_them name v w (sp ∷ sps) (e, a) (inr i) = one_of_them name v w sps a i

  IsAgreed-at :
      (j : Job F) (pf : PowerFlow F) (node n : Text) (v : F)
      → IsSolvable fl j pf.carrier pf.slack node
      → (o : Option (List (Text × F)))
      → lookup n (setpoints_by_node fl pf.carrier pf.slack j.model) ≡ o
      → (name : Text) → In (name, v) (get_or_else o [])
      → IsAgreed j pf n v
  IsAgreed-at j pf node n v s none e name i = absurd i
  IsAgreed-at j pf node n v s (some []) e name i = absurd i
  IsAgreed-at j pf node n v s (some ((name0, w) ∷ sps)) e name i =
      let same = s.held n name0 w sps e in
      record {
        name = name0;
        value = w;
        others = sps;
        compared = e;
        agree = same;
        emitted = elim i [
          | inl p ↦ inl (ap (λ z. z.1) p)
          | inr k ↦ inr (one_of_them name v w sps same k)
        ];
      }

  picked : {A : Type 0} (b : Bool) (x y : A) → (if b then some x else none) ≡ some y → x ≡ y
  picked true x y h = some_injective h
  picked false x y h = cc

  -- The configuration of a solvable power flow
  resolved :
      (j : Job F) (pf : PowerFlow F)
      → power_flow_problems fl j ≡ []
      → power_flow_of j ≡ some pf
      → ((node : Text) × IsSolvable fl j pf.carrier pf.slack node)
        × (pf.setpoints ≡ voltage_setpoints j.model pf.carrier pf.slack)
  unfolding power_flow_of name_of
  resolved j pf h e =
      let (c, slack, node, s) = power_flow_problems-IsSolvable fl j h in
      let same = picked _ _ pf e in rw (← same) (rw (s.only, s.named) ((node, s), refl))

  -- Where a power flow has no problems and all its technologies are active, each voltage set-point that is
  -- emitted for a node agrees with those of the components that hold the node's voltage: the validation
  -- has compared them all with the first, which the emitted one is or equals.
  pub power_flow_of-IsAgreed :
      (j : Job F) (pf : PowerFlow F) (n : Text) (v : F)
      → power_flow_problems fl j ≡ []
      → power_flow_of j ≡ some pf
      → AllActive j.model
      → lookup n pf.setpoints ≡ some v
      → IsAgreed j pf n v
  power_flow_of-IsAgreed j pf n v h e active l =
      let ((node, s), emitted) = resolved j pf h e in
      let covers = voltage_setpoints-Covers fl pf.carrier pf.slack j.model active in
      let (name, i) = covers.at n v (rw emitted at l) in IsAgreed-at j pf node n v s _ refl name i
