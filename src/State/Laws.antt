-- ===== src/State/Laws.antt =====
-- What a state promises: it is two functions, from names to numbers and from names to Booleans.
use agentic_rpgmaker.Base.{
  ◌≡◌, refl, Bool, false, Option, none, List, [], ◌∷◌, String, if◌then◌else◌, ℤ, pos, ◌+ℤ◌, or_else,
  ◌==◌, arith, String_eq, eq_iff, ap, ◌∙◌,
}
use agentic_rpgmaker.Base.Dict.{Dict, get, insert, get-insert, has}
use agentic_rpgmaker.State.{
  GameState, GameStateSnapshot, get_variable, set_variable, add_variable, get_switch, set_switch,
  set_all, snapshot, load, GameEvent, make_state,
}

-- A call that changes a state.
pub data StateCall : Type 0 where
  set_var add_var : (name : String) (value : ℤ) → StateCall
  set_sw : (name : String) (value : Bool) → StateCall

unfoldable pub step : StateCall → GameState → GameState
unfolding set_variable add_variable set_switch
step (set_var name value) s = set_variable name value s
step (add_var name delta) s = add_variable name delta s
step (set_sw name value) s = set_switch name value s

unfoldable pub run : List StateCall → GameState → GameState
unfolding step
run [] s = s
run (c ∷ cs) s = run cs (step c s)

-- The abstract state.
pub record Values : Type 0 where
  pub variable : String → ℤ
  pub switch : String → Bool

unfoldable pub promise : StateCall → Values → Values
promise (set_var name value) v = record v {
  variable = λ n. if name == n then value else v.variable n;
}
promise (add_var name delta) v = record v {
  variable = λ n. if name == n then v.variable name +ℤ delta else v.variable n;
}
promise (set_sw name value) v = record v { switch = λ n. if name == n then value else v.switch n }

unfoldable pub promises : List StateCall → Values → Values
unfolding promise
promises [] v = v
promises (c ∷ cs) v = promises cs (promise c v)

-- A state shows the values of an abstract one.
pub record Shows (s : GameState) (v : Values) : Type 0 where
  pub variables : (n : String) → get_variable n s ≡ v.variable n
  pub switches : (n : String) → get_switch n s ≡ v.switch n

pub get_variable-set :
    (name : String) (value : ℤ) (s : GameState) (n : String)
    → get_variable n (set_variable name value s) ≡ (if name == n then value else get_variable n s)
unfolding get_variable set_variable
get_variable-set name value s n = ground (arith, get-insert name n value s.variables)

pub get_variable-add :
    (name : String) (delta : ℤ) (s : GameState) (n : String)
    → get_variable n (add_variable name delta s)
      ≡ (if name == n then get_variable name s +ℤ delta else get_variable n s)
unfolding get_variable add_variable
get_variable-add name delta s n =
    ground (arith, get-insert name n (get_variable name s +ℤ delta) s.variables)

pub get_switch-set :
    (name : String) (value : Bool) (s : GameState) (n : String)
    → get_switch n (set_switch name value s) ≡ (if name == n then value else get_switch n s)
unfolding get_switch set_switch
get_switch-set name value s n = ground (arith, get-insert name n value s.switches)

step-Shows :
    (c : StateCall) (s : GameState) (v : Values) → Shows s v → Shows (step c s) (promise c v)
unfolding step promise
step-Shows (set_var name value) s v w = record {
  variables = λ n. ground (arith, get_variable-set name value s n, w.variables n);
  switches = w.switches;
}
step-Shows (add_var name delta) s v w = record {
  variables = λ n. ground (arith, get_variable-add name delta s n, w.variables n, w.variables name);
  switches = w.switches;
}
step-Shows (set_sw name value) s v w = record {
  variables = w.variables;
  switches = λ n. ground (arith, get_switch-set name value s n, w.switches n);
}

-- Any sequence of `setVariable`, `addVariable` and `setSwitch` leaves a state whose getters give
-- what the calls promise: a set or an addition changes one name, and an unset name reads as 0 or
-- false.
pub run-Shows :
    (cs : List StateCall) (s : GameState) (v : Values)
    → Shows s v
    → Shows (run cs s) (promises cs v)
unfolding run promises
run-Shows [] s v w = w
run-Shows (c ∷ cs) s v w = run-Shows cs (step c s) (promise c v) (step-Shows c s v w)

-- No name stands twice.
abbrev pub HasDistinctKeys : {A : Type 0} → Dict String A → Type 0
HasDistinctKeys [] = Unit
HasDistinctKeys ((name, value) ∷ m) = (get name m ≡ none) × HasDistinctKeys m

module _ {A : Type 0} where
  insert-HasDistinctKeys :
      (name : String) (value : A) (m : Dict String A)
      → HasDistinctKeys m
      → HasDistinctKeys (insert name value m)
  unfolding insert get
  insert-HasDistinctKeys name value [] w = (refl, tt)
  insert-HasDistinctKeys name value ((j, x) ∷ m) (fresh, w) = ground (
    arith,
    get-insert name j value m,
    insert-HasDistinctKeys name value m w,
    eq_iff j name,
    eq_iff name j,
  )

  set_all-HasDistinctKeys :
      (entries m : Dict String A) → HasDistinctKeys m → HasDistinctKeys (set_all entries m)
  unfolding set_all
  set_all-HasDistinctKeys [] m w = w
  set_all-HasDistinctKeys ((name, value) ∷ entries) m w =
      set_all-HasDistinctKeys entries (insert name value m) (insert-HasDistinctKeys name value m w)

  get-set_all :
      (n : String) (entries m : Dict String A)
      → HasDistinctKeys entries
      → get n (set_all entries m) ≡ (if has n entries then get n entries else get n m)
  unfolding set_all get
  get-set_all n [] m w = refl
  get-set_all n ((name, value) ∷ entries) m (fresh, w) = ground (
    arith,
    get-set_all n entries (insert name value m) w,
    get-insert name n value m,
    eq_iff name n,
  )

  get-set_all_empty :
      (n : String) (entries : Dict String A)
      → HasDistinctKeys entries
      → get n (set_all entries []) ≡ get n entries
  unfolding get
  get-set_all_empty n entries w = ground (arith, get-set_all n entries [] w)

pub record IsState (s : GameState) : Type 0 where
  pub variables : HasDistinctKeys s.variables
  pub switches : HasDistinctKeys s.switches

pub step-IsState : (c : StateCall) (s : GameState) → IsState s → IsState (step c s)
unfolding step
step-IsState (set_var name value) s w = record {
  variables = insert-HasDistinctKeys name value s.variables w.variables;
  switches = w.switches;
}
step-IsState (add_var name delta) s w = record {
  variables = insert-HasDistinctKeys name (get_variable name s +ℤ delta) s.variables w.variables;
  switches = w.switches;
}
step-IsState (set_sw name value) s w = record {
  variables = w.variables;
  switches = insert-HasDistinctKeys name value s.switches w.switches;
}

pub make_state-IsState :
    (p : GameStateSnapshot) (bus : Option (List GameEvent)) → IsState (make_state p bus)
unfolding make_state load
make_state-IsState p bus = record {
  variables = set_all-HasDistinctKeys p.variables [] tt;
  switches = set_all-HasDistinctKeys p.switches [] tt;
}

-- Saving and loading: in any state t, loading the snapshot of s gives every variable and switch
-- its value in s, whatever t held before, and emits nothing.
pub load-snapshot :
    (s t : GameState)
    → IsState s
    → ((n : String) → get_variable n (load (snapshot s) t) ≡ get_variable n s)
      × ((n : String) → get_switch n (load (snapshot s) t) ≡ get_switch n s)
      × ((load (snapshot s) t).bus ≡ t.bus)
unfolding load snapshot get_variable get_switch
load-snapshot s t w = (
  λ n.
      ap (λ o. or_else o (pos 0))
        (get-set_all_empty n (set_all s.variables []) (set_all-HasDistinctKeys s.variables [] tt)
          ∙ get-set_all_empty n s.variables w.variables),
  λ n.
      ap (λ o. or_else o false)
        (get-set_all_empty n (set_all s.switches []) (set_all-HasDistinctKeys s.switches [] tt)
          ∙ get-set_all_empty n s.switches w.switches),
  refl,
)
