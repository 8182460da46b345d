-- ===== src/Checklist/Resolver.antt =====
-- DependencyResolver (src/hc/checklist/resolver.py). `self._deps` is a dictionary; `in_degree` and
-- `children` have the checklist's ids for keys throughout and are functions. Iteration over
-- `set(self._deps)` has no order that the program fixes: `ids` is the order that the run meets.
pub mod Degrees
pub mod Kahn
pub mod Order
pub mod Ready
mod Tests
use fptcloud_hc_automation_m.Base.{
  ℕ, zero, suc, ◌-◌, ◌+◌, String, Bool, true, false, not, ◌&&◌, Option, none, some, List, [], ◌∷◌,
  ◌++◌, ◌==◌, ◌≡◌, if◌then◌else◌, ltb, eqb, length, keep, all, mem, count, Dict, keys, lookup,
  insert, update,
}

-- `for tc_id, deps in entries: self._deps[tc_id] = list(deps)`
unfoldable pub build : Dict (List String) → Dict (List String) → Dict (List String)
build [] deps = deps
build ((tc_id, ds) ∷ entries) deps = build entries (insert tc_id ds deps)

-- Any order in which the set of the keys may be met: each key once, and nothing else.
abbrev pub IsSetOrder : List String → List String → Type 0
IsSetOrder ids ks = (c : String) → count c ids ≡ (if mem c ks then 1 else 0)

pub record Tables : Type 0 where
  pub in_degree : String → ℕ
  pub children : String → List String

abbrev pub no_edges : Tables
no_edges = record { in_degree = λ c. 0; children = λ c. [] }

-- The body of `for parent in deps`: a parent outside the checklist is passed over.
unfoldable pub add_edge : List String → String → String → Tables → Tables
add_edge ids tc_id parent t =
    if mem parent ids
    then record {
      in_degree = update t.in_degree tc_id (t.in_degree tc_id + 1);
      children = update t.children parent (t.children parent ++ tc_id ∷ []);
    }
    else t

unfoldable pub add_deps : List String → String → List String → Tables → Tables
add_deps ids tc_id [] t = t
add_deps ids tc_id (parent ∷ deps) t = add_deps ids tc_id deps (add_edge ids tc_id parent t)

unfoldable pub add_all : List String → Dict (List String) → Tables → Tables
add_all ids [] t = t
add_all ids ((tc_id, deps) ∷ rest) t = add_all ids rest (add_deps ids tc_id deps t)

pub record Progress : Type 0 where
  pub in_degree : String → ℕ
  pub queue : List String
  pub order : List String

-- `for child in children[node]`. A degree that is decremented is positive (`Kahn`), so `-` on ℕ
-- is Python's.
unfoldable pub relax : List String → Progress → Progress
relax [] s = s
relax (child ∷ rest) s =
    let d = s.in_degree child - 1 in
    relax rest (record s {
      in_degree = update s.in_degree child d;
      queue = if eqb d 0 then s.queue ++ child ∷ [] else s.queue;
    })

-- `while queue`, on fuel: each round moves one id to `order`.
unfoldable pub drain : ℕ → (String → List String) → Progress → Progress
drain zero children s = s
drain (suc fuel) children s = elim (s.queue) [
  | [] ↦ s
  | node ∷ queue ↦
      drain fuel children
        (relax (children node) (record s { queue = queue; order = s.order ++ node ∷ [] }))
]

pub data Sorted : Type 0 where
  ordered : List String → Sorted
  cyclic : List String → Sorted

abbrev pub start : List String → Tables → Progress
start ids t = record {
  in_degree = t.in_degree;
  queue = keep (λ c. eqb (t.in_degree c) 0) ids;
  order = [];
}

-- The state when the loop has ended.
unfoldable pub sort_run : List String → Dict (List String) → Progress
sort_run ids deps = let t = add_all ids deps no_edges in drain (length ids) t.children (start ids t)

-- `ordered` returns, `cyclic` raises CyclicDependencyError with the ids left over.
unfoldable pub topological_sort : List String → Dict (List String) → Sorted
topological_sort ids deps =
    let s = sort_run ids deps in
    if eqb (length s.order) (length ids)
    then ordered s.order
    else cyclic (keep (λ c. ltb 0 (s.in_degree c)) ids)

abbrev pub or_empty : Option (List String) → List String
or_empty none = []
or_empty (some ds) = ds

-- `self._deps[tc_id]`, asked for keys only.
abbrev pub deps_of : Dict (List String) → String → List String
deps_of deps c = or_empty (lookup c deps)

-- ready_tasks(completed); `deps` is `self._deps` and `order` is `self._order`.
pub ready_tasks : Dict (List String) → List String → List String → List String
ready_tasks deps order completed =
    keep
      (λ c.
        (mem c (keys deps) && not (mem c completed)) && all (λ d. mem d completed) (deps_of deps c))
      order
