-- ===== src/Tests/Injection.antt =====
-- Runs of the container.
use agentback.Base.{
  ℕ, ◌≡◌, refl, String, false, none, some, [], ◌∷◌, ◌==◌, if◌then◌else◌, arith, ok, err,
}
use agentback.Base.Map.{lookup, has}
use agentback.Injection.Session.{circular, answer}
use agentback.Injection.Scopes.{
  singleton, transient, application, Frame, Context, resolution_context,
}
use agentback.Injection.Resolver.{Class, constant, class, Binding, Program, Caches}
use agentback.Injection.Values.{get_value}
use agentback.Injection.Bounds.{Bounded}
use agentback.Injection.Ends.{free, Spec}
use agentback.Injection.Termination.{get_value-Spec, get_value_once}

abbrev needs : String → Class
needs key = record {
  name = "Needs";
  arguments = some (record { key = key; optional = false }) ∷ [];
  properties = [];
  code = 0;
}

-- Binding 0 needs "b", binding 1 needs "a", and binding 2 is a constant.
abbrev binding_of : ℕ → Binding ℕ
binding_of b =
    if b == 0
    then record { key = "a"; scope = transient; source = class (needs "b") }
    else (if b == 1
        then record { key = "b"; scope = singleton; source = class (needs "a") }
        else record { key = "c"; scope = singleton; source = constant 5 })

abbrev program : Program ℕ
program = record {
  bindings = binding_of;
  construct = λ code args props. ok code;
  provide = λ p. ok p;
  factory = λ n. ok n;
}

abbrev root : Frame
root = record { id = 0; scope = application; registry = ("a", 0) ∷ ("b", 1) ∷ ("c", 2) ∷ [] }

abbrev app : Context
app = root ∷ []

-- A context below it, where nothing is bound.
abbrev child : Context
child = record { id = 1; scope = application; registry = [] } ∷ app

abbrev no_caches : Caches ℕ
no_caches b c = none

app-Bounded : Bounded 3 app
unfolding lookup
app-Bounded = (λ key b h. ground arith, tt)

-- The cycle is found.
cycle : (get_value program 4 app 0 false [] no_caches).result ≡ err (circular 0)
unfolding get_value lookup has
cycle = refl

get_value-Spec_example : Spec [] (get_value program 4 app 0 false [] no_caches)
unfolding free
get_value-Spec_example =
    get_value-Spec 3 program 4 app 0 false [] no_caches app-Bounded (omega arith) (omega arith)

get_value_once_example :
    get_value program 1 child 2 false [] (get_value program 1 app 2 false [] no_caches).caches
    ≡ answer (ok (some 5)) [] (get_value program 1 app 2 false [] no_caches).caches
unfolding get_value resolution_context lookup has
get_value_once_example =
    get_value_once program 2 refl 0 0 app child app false false [] [] no_caches (some 5) refl refl
      refl refl
