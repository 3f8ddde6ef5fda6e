-- ===== src/DomainStateMachine/Analyzer.antt =====
-- src/domain-state-machine/analyzer.ts: the transition graph of a definition, and what a depth-first
-- search finds in it. A list that the source fills by `push` and `pop` is kept with its end first.
use mathlib.Core.List.{reverse}
use ddd_kit_ts.Base.{
  ℕ, zero, suc, ◌+◌, Bool, true, false, not, ◌&&◌, Option, none, some, List, [], ◌∷◌, ◌++◌, map,
  length, ltb, ◌==◌, if◌then◌else◌, Outcome, ok, ◌>>=◌, get_or,
}
use ddd_kit_ts.Base.JsMap
use ddd_kit_ts.Base.JsMap.{JsMap}
use ddd_kit_ts.Base.JsString.{JsString, JsString-discrete}
use ddd_kit_ts.DomainStateMachine.{
  DomainTransition, DomainMachineDefinition, Error, validate_definition,
}

pub data DomainMachineDefinitionDiagnostic : Type 0 where
  unreachable_state structural_dead_end no_terminal_path :
      (state : JsString) → DomainMachineDefinitionDiagnostic

pub record DomainMachineTransitionDescription : Type 0 where
  pub state : JsString
  pub input_type : JsString
  pub target : JsString
  pub guarded : Bool

pub record DomainMachineDefinitionAnalysis : Type 0 where
  pub diagnostics : List DomainMachineDefinitionDiagnostic
  pub transitions : List DomainMachineTransitionDescription
  pub structurally_reachable_states : List JsString
  pub states_with_terminal_path : List JsString

-- `compareStrings(left, right) <= 0`: by code units.
unfoldable pub string_le : JsString → JsString → Bool
string_le [] t = true
string_le (c ∷ s) [] = false
string_le (c ∷ s) (d ∷ t) = let rest = string_le s t in if c == d then rest else ltb c d

-- `Array.prototype.sort` by that comparison.
unfoldable pub insert_string : JsString → List JsString → List JsString
unfolding string_le
insert_string s [] = s ∷ []
insert_string s (t ∷ ts) =
    let rest = insert_string s ts in if string_le s t then s ∷ t ∷ ts else t ∷ rest

unfoldable pub sort_strings : List JsString → List JsString
unfolding insert_string
sort_strings [] = []
sort_strings (s ∷ ss) = insert_string s (sort_strings ss)

abbrev pub keys : {V : Type 0} → JsMap JsString V → List JsString
keys m = map (λ e. e.0) m

-- `Array.prototype.filter`
unfoldable pub filter_states : (JsString → Bool) → List JsString → List JsString
filter_states p [] = []
filter_states p (s ∷ ss) = let rest = filter_states p ss in if p s then s ∷ rest else rest

-- `Set.has`
unfoldable pub has_visited : JsString → List JsString → Bool
unfolding JsString-discrete
has_visited s [] = false
has_visited s (t ∷ ts) =
    let rest = has_visited s ts in elim (JsString-discrete t s) [ yes e ↦ true | no ne ↦ rest ]

abbrev pub Graph : Type 0
Graph = JsMap JsString (List JsString)

-- `edges.get(state) ?? []`
unfoldable pub edges_of : Graph → JsString → List JsString
unfolding JsString-discrete
edges_of g state = get_or (JsMap.get JsString-discrete state g) []

-- The loop over the edges of a state that has just been visited.
unfoldable pub push_all : List JsString → List JsString → List JsString → List JsString
unfolding has_visited
push_all visited pending [] = pending
push_all visited pending (next ∷ nexts) =
    push_all visited (if has_visited next visited then pending else next ∷ pending) nexts

-- The search; none if the fuel does not suffice.
unfoldable pub visit_loop : ℕ → Graph → List JsString → List JsString → Option (List JsString)
unfolding has_visited push_all edges_of
visit_loop fuel g visited [] = some visited
visit_loop zero g visited (state ∷ pending) = none
visit_loop (suc fuel) g visited (state ∷ pending) = elim (has_visited state visited) [
  | true ↦ visit_loop fuel g visited pending
  | false ↦
      visit_loop fuel g (state ∷ visited) (push_all (state ∷ visited) pending (edges_of g state))
]

-- The number of edges of a graph.
unfoldable pub edge_count : Graph → ℕ
edge_count [] = 0
edge_count (e ∷ g) = length e.1 + edge_count g

-- A round takes one state off the list, and each edge puts one on at most once.
unfoldable pub visit_graph : Graph → List JsString → Option (List JsString)
unfolding visit_loop edge_count
visit_graph g starts = visit_loop (length starts + edge_count g) g [] starts

-- `graph.get(from)?.push(to)`
unfoldable pub push_edge : JsString → JsString → Graph → Graph
unfolding JsString-discrete
push_edge from to g = elim (JsMap.get JsString-discrete from g) [
  | none ↦ g
  | some targets ↦ JsMap.set JsString-discrete from (targets ++ to ∷ []) g
]

-- The maps `outgoing` and `incoming` before the edges are pushed.
unfoldable pub without_edges : List JsString → Graph
unfolding JsString-discrete
without_edges [] = []
without_edges (s ∷ states) = (s, []) ∷ without_edges states

unfoldable pub outgoing_from : Graph → List DomainMachineTransitionDescription → Graph
unfolding push_edge
outgoing_from g [] = g
outgoing_from g (t ∷ ts) = outgoing_from (push_edge t.state t.target g) ts

unfoldable pub incoming_from : Graph → List DomainMachineTransitionDescription → Graph
unfolding push_edge
incoming_from g [] = g
incoming_from g (t ∷ ts) = incoming_from (push_edge t.target t.state g) ts

module _ {C I O D X : Type 0} where
  -- The inner loop over the input types of a state.
  unfoldable pub describe_inputs :
      JsString
      → JsMap JsString (DomainTransition C I O D X)
      → List JsString
      → List DomainMachineTransitionDescription
  unfolding JsString-discrete
  describe_inputs state on [] = []
  describe_inputs state on (input_type ∷ types) =
      let rest = describe_inputs state on types in
      elim (JsMap.get JsString-discrete input_type on) [
        | none ↦ rest
        | some t ↦
            record {
              state = state;
              input_type = input_type;
              target = t.target;
              guarded = elim t.guard [ none ↦ false | some _ ↦ true ];
            }
            ∷ rest
      ]

  -- The outer loop over the states.
  unfoldable pub describe_states :
      DomainMachineDefinition C I O D X → List JsString → List DomainMachineTransitionDescription
  unfolding describe_inputs sort_strings JsString-discrete
  describe_states d [] = []
  describe_states d (state ∷ states) =
      let rest = describe_states d states in
      elim (JsMap.get JsString-discrete state d.states) [
        | none ↦ rest
        | some node ↦ describe_inputs state node.on (sort_strings (keys node.on)) ++ rest
      ]

  abbrev pub sorted_states : DomainMachineDefinition C I O D X → List JsString
  sorted_states d = sort_strings (keys d.states)

  unfoldable pub is_terminal_state : DomainMachineDefinition C I O D X → JsString → Bool
  unfolding JsString-discrete
  is_terminal_state d state = elim (JsMap.get JsString-discrete state d.states) [
    | none ↦ false
    | some node ↦ node.terminal
  ]

  unfoldable pub transitions_of :
      DomainMachineDefinition C I O D X → List DomainMachineTransitionDescription
  unfolding describe_states sort_strings
  transitions_of d = describe_states d (sorted_states d)

  unfoldable pub outgoing : DomainMachineDefinition C I O D X → Graph
  unfolding outgoing_from without_edges transitions_of sort_strings
  outgoing d = outgoing_from (without_edges (sorted_states d)) (transitions_of d)

  unfoldable pub incoming : DomainMachineDefinition C I O D X → Graph
  unfolding incoming_from without_edges transitions_of sort_strings
  incoming d = incoming_from (without_edges (sorted_states d)) (transitions_of d)

  unfoldable pub terminal_states : DomainMachineDefinition C I O D X → List JsString
  unfolding filter_states is_terminal_state sort_strings
  terminal_states d = filter_states (is_terminal_state d) (sorted_states d)

  -- The three loops of diagnostics.
  unfoldable pub diagnose :
      DomainMachineDefinition C I O D X
      → List JsString
      → List JsString
      → List DomainMachineDefinitionDiagnostic
  unfolding filter_states has_visited is_terminal_state edges_of outgoing sort_strings
  diagnose d reachable ending =
      map unreachable_state (filter_states (λ s. not (has_visited s reachable)) (sorted_states d))
      ++ (map structural_dead_end (
            filter_states
              (λ s. not (is_terminal_state d s) && (length (edges_of (outgoing d) s) == 0))
              (sorted_states d))
          ++ map no_terminal_path
              (filter_states (λ s. not (has_visited s ending)) (sorted_states d)))

  -- What the two searches have visited, as the analysis reports it.
  abbrev pub analysis_of :
      DomainMachineDefinition C I O D X
      → List JsString
      → List JsString
      → DomainMachineDefinitionAnalysis
  analysis_of d reachable ending = record {
    diagnostics = diagnose d reachable ending;
    transitions = transitions_of d;
    structurally_reachable_states = filter_states (λ s. has_visited s reachable) (sorted_states d);
    states_with_terminal_path = filter_states (λ s. has_visited s ending) (sorted_states d);
  }

  -- None if a search runs out of fuel.
  unfoldable pub analyze_domain_machine_definition :
      DomainMachineDefinition C I O D X
      → Outcome (Error D X) (Option DomainMachineDefinitionAnalysis)
  unfolding filter_states validate_definition visit_graph diagnose terminal_states incoming outgoing
      transitions_of has_visited sort_strings
  analyze_domain_machine_definition d = validate_definition d >>= λ _.
      elim (visit_graph (outgoing d) (d.initial ∷ [])) [
        | none ↦ ok none
        | some reachable ↦ elim (visit_graph (incoming d) (reverse (terminal_states d))) [
          | none ↦ ok none
          | some ending ↦ ok (some (analysis_of d reachable ending))
        ]
      ]
