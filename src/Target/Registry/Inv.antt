-- ===== src/Target/Registry/Inv.antt =====
-- The invariant of the registry (internal/target/target.go), and lookups by name or alias.
use meme.Base.{
  ◌≡◌, refl, true, false, Option, none, some, some_injective, List, [], ◌∷◌, arith, Text,
  str_eq_iff, Map, lookup, insert, has_key, lookup-insert, has_key-insert, lookup_of_not_key, ◌↔◌,
  insert-IsMap, IsMap,
}
use mathlib.Core.Path.{subst}
use meme.Target.Registry.{
  Target, Registry, empty_registry, register, register_alias, or_name, resolve, for_target, known,
  Init, add, add_alias, run_init, then_inits, run_inits,
}

-- Both tables are maps, a target is kept under its name, and an alias is no target's name but leads
-- to one.
pub record IsRegistry (r : Registry) : Type 0 where
  pub maps : IsMap r.registry × IsMap r.aliases
  pub named : (n : Text) (t : Target) → lookup n r.registry ≡ some t → t.name ≡ n
  pub no_alias : (a c : Text) → lookup a r.aliases ≡ some c → has_key a r.registry ≡ false
  pub registered : (a c : Text) → lookup a r.aliases ≡ some c → has_key c r.registry ≡ true

empty-IsRegistry : IsRegistry empty_registry
unfolding empty_registry lookup
empty-IsRegistry = ground arith

-- What `Register` checks and does.
register_eq :
    (t : Target) (r r' : Registry)
    → register t r ≡ some r'
    → (has_key t.name r.registry ≡ false)
      × (has_key t.name r.aliases ≡ false)
      × (record r { registry = insert t.name t r.registry } ≡ r')
unfolding register
register_eq t r r' h = ground arith

insert_target-IsRegistry :
    (t : Target) (r : Registry)
    → IsRegistry r
    → has_key t.name r.aliases ≡ false
    → IsRegistry (record r { registry = insert t.name t r.registry })
insert_target-IsRegistry t r i free = record {
  maps = (insert-IsMap t.name t r.registry i.maps.0, i.maps.1);
  named = λ n u h.
      ground (arith, i.named n u, lookup-insert t.name n t r.registry, str_eq_iff t.name n);
  no_alias = λ a c h. ground (
    arith,
    i.no_alias a c h,
    has_key-insert t.name a t r.registry,
    str_eq_iff t.name a,
    lookup_of_not_key t.name r.aliases free,
  );
  registered = λ a c h. ground (arith, i.registered a c h, has_key-insert t.name c t r.registry);
}

register-IsRegistry :
    (t : Target) (r r' : Registry) → IsRegistry r → register t r ≡ some r' → IsRegistry r'
register-IsRegistry t r r' i h =
    let (fresh, free, same) = register_eq t r r' h in
    subst IsRegistry same (insert_target-IsRegistry t r i free)

-- What `RegisterAlias` checks and does.
register_alias_eq :
    (a c : Text) (r r' : Registry)
    → register_alias a c r ≡ some r'
    → (has_key c r.registry ≡ true)
      × (has_key a r.registry ≡ false)
      × (record r { aliases = insert a c r.aliases } ≡ r')
unfolding register_alias
register_alias_eq a c r r' h = ground arith

insert_alias-IsRegistry :
    (a c : Text) (r : Registry)
    → IsRegistry r
    → has_key c r.registry ≡ true
    → has_key a r.registry ≡ false
    → IsRegistry (record r { aliases = insert a c r.aliases })
insert_alias-IsRegistry a c r i there free = record {
  maps = (i.maps.0, insert-IsMap a c r.aliases i.maps.1);
  named = i.named;
  no_alias = λ b d h. ground (arith, i.no_alias b d, lookup-insert a b c r.aliases, str_eq_iff a b);
  registered = λ b d h. ground (arith, i.registered b d, lookup-insert a b c r.aliases);
}

register_alias-IsRegistry :
    (a c : Text) (r r' : Registry) → IsRegistry r → register_alias a c r ≡ some r' → IsRegistry r'
register_alias-IsRegistry a c r r' i h =
    let (there, free, same) = register_alias_eq a c r r' h in
    subst IsRegistry same (insert_alias-IsRegistry a c r i there free)

run_init-IsRegistry :
    (x : Init) (r r' : Registry) → IsRegistry r → run_init x r ≡ some r' → IsRegistry r'
unfolding run_init
run_init-IsRegistry (add t) r r' i h = register-IsRegistry t r r' i h
run_init-IsRegistry (add_alias a c) r r' i h = register_alias-IsRegistry a c r r' i h

then_inits-IsRegistry :
    (xs : List Init) (o : Option Registry) (r' : Registry)
    → ((q : Registry) → o ≡ some q → run_inits xs q ≡ some r' → IsRegistry r')
    → then_inits o (run_inits xs) ≡ some r'
    → IsRegistry r'
unfolding then_inits
then_inits-IsRegistry xs none r' rest h = ground arith
then_inits-IsRegistry xs (some q) r' rest h = rest q refl h

run_inits_from :
    (xs : List Init) (r r' : Registry) → IsRegistry r → run_inits xs r ≡ some r' → IsRegistry r'
unfolding run_inits
run_inits_from [] r r' i h = subst IsRegistry (some_injective h) i
run_inits_from (x ∷ xs) r r' i h =
    then_inits-IsRegistry xs (run_init x r) r'
      (λ q e k. run_inits_from xs q r' (run_init-IsRegistry x r q i e) k) h

-- Whatever targets and aliases the init functions register, in whatever order: if none of them
-- panics, both tables are maps, each target is kept under its name, and each alias leads to a target
-- and is no target's name.
pub run_inits-IsRegistry :
    (xs : List Init) (r : Registry) → run_inits xs empty_registry ≡ some r → IsRegistry r
run_inits-IsRegistry xs r h = run_inits_from xs empty_registry r empty-IsRegistry h

-- No alias leads to an alias.
no_alias_chain :
    (r : Registry) (a c : Text) (o : Option Text)
    → IsRegistry r
    → lookup a r.aliases ≡ some c
    → lookup c r.aliases ≡ o
    → o ≡ none
no_alias_chain r a c none i h e = refl
no_alias_chain r a c (some d) i h e = ground (arith, i.registered a c h, i.no_alias c d e)

resolve_once :
    (r : Registry) (name : Text) (o : Option Text)
    → IsRegistry r
    → lookup name r.aliases ≡ o
    → or_name (or_name name o) (lookup (or_name name o) r.aliases) ≡ or_name name o
unfolding or_name
resolve_once r name none i h = rw h
resolve_once r name (some c) i h = rw (no_alias_chain r name c (lookup c r.aliases) i h refl)

has_key-lookup :
    (m : Map Target) (n : Text) (o : Option Target)
    → lookup n m ≡ o
    → ((u : Text) (t : Target) → lookup u m ≡ some t → t.name ≡ u)
    → (has_key n m ≡ true) ↔ ((t : Target) × (o ≡ some t) × (t.name ≡ n))
unfolding has_key
has_key-lookup m n none h named = (λ k. ground arith, λ (t, e, _). ground arith)
has_key-lookup m n (some t) h named = (λ _. (t, refl, named n t h), λ _. rw (has_key, h))

-- A name resolves to one that resolves to itself, and is known exactly if `For` finds a target for
-- it; that target is kept under the resolved name.
pub resolve_lem :
    (r : Registry) (name : Text)
    → IsRegistry r
    → (resolve r (resolve r name) ≡ resolve r name)
      × ((known r name ≡ true)
          ↔ ((t : Target) × (for_target r name ≡ some t) × (t.name ≡ resolve r name)))
unfolding resolve known for_target
resolve_lem r name i =
    (resolve_once r name (lookup name r.aliases) i refl, has_key-lookup r.registry _ _ refl i.named)
