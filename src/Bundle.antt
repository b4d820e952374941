-- ===== src/Bundle.antt =====
-- novapanda/bundle.py: `validate_bundle`, on documents whose members are there with the right types,
-- and `topological_order`.
pub mod Order
use novapanda.Base.{
  ℕ, zero, suc, ◌+◌, String, Bool, true, false, not, ◌&&◌, ◌||◌, Option, none, some, List, [], ◌∷◌,
  ◌++◌, ◌==◌, contains, or_else, if◌then◌else◌,
}
use novapanda.Base.Dict.{Dict, get}
use novapanda.Base.Seq.{length}
use novapanda.Base.Exec.{Result, ok, err}

-- The members that the functions read.
pub record Bundle : Type 0 where
  pub exchange_ids : List String
  pub depends_on : Dict (List String)

-- `validate_bundle` collects the first three as texts; `cycle` is the `ValueError` and `unknown_key` the
-- `KeyError` of `topological_order`. `no_fuel` is the model's own.
pub data BundleError : Type 0 where
  empty_id : BundleError
  unknown_child unknown_parent : String → BundleError

pub data OrderError : Type 0 where
  invalid : List BundleError → OrderError
  cycle unknown_key no_fuel : OrderError

unfoldable pub unknown_parents : List String → List String → List BundleError
unknown_parents ids [] = []
unknown_parents ids (p ∷ ps) =
    let rest = unknown_parents ids ps in if contains p ids then rest else unknown_parent p ∷ rest

unfoldable pub depends_errors : List String → Dict (List String) → List BundleError
depends_errors ids [] = []
depends_errors ids ((child, parents) ∷ d) =
    let rest = unknown_parents ids parents ++ depends_errors ids d in
    if contains child ids then rest else unknown_child child ∷ rest

unfoldable pub validate_bundle : Bundle → List BundleError
validate_bundle b =
    let rest = depends_errors b.exchange_ids b.depends_on in
    if contains "" b.exchange_ids then empty_id ∷ rest else rest

unfoldable pub parents_of : Dict (List String) → String → List String
parents_of deps i = or_else (get deps i) []

-- `all(p not in remaining for p in ps)`
unfoldable pub none_in : List String → List String → Bool
none_in remaining [] = true
none_in remaining (p ∷ ps) = not (contains p remaining) && none_in remaining ps

-- What can start now, in the order of the ids.
unfoldable pub ready : Dict (List String) → List String → List String → List String
ready deps remaining [] = []
ready deps remaining (i ∷ is) =
    let rest = ready deps remaining is in
    if contains i remaining && none_in remaining (parents_of deps i) then i ∷ rest else rest

unfoldable pub without : String → List String → List String
without i [] = []
without i (x ∷ xs) = let rest = without i xs in if x == i then rest else x ∷ rest

-- `ordered` and `remaining`; a set is a list whose order is not read
pub record Progress : Type 0 where
  pub ordered : List String
  pub remaining : List String

-- The inner loop: `set.remove` raises on what is not there.
unfoldable pub start_all : List String → Progress → Result OrderError Progress
start_all [] s = ok s
start_all (i ∷ is) s =
    let rest =
      start_all is (record { ordered = s.ordered ++ i ∷ []; remaining = without i s.remaining }) in
    if contains i s.remaining then rest else err unknown_key

-- The outer loop, with the number of rounds it may take.
unfoldable pub rounds : ℕ → Bundle → Progress → Result OrderError (List String)
rounds zero b s = err no_fuel
rounds (suc n) b s = elim s.remaining [
  | [] ↦ ok s.ordered
  | _ ∷ _ ↦ elim (ready b.depends_on s.remaining b.exchange_ids) [
    | [] ↦ err cycle
    | i ∷ is ↦ elim (start_all (i ∷ is) s) [ err e ↦ err e | ok t ↦ rounds n b t ]
  ]
]

unfoldable pub topological_order : Bundle → Result OrderError (List String)
topological_order b = elim (validate_bundle b) [
  | e ∷ es ↦ err (invalid (e ∷ es))
  | [] ↦
      rounds (suc (length b.exchange_ids)) b (record { ordered = []; remaining = b.exchange_ids })
]
