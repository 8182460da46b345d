-- ===== src/Live/Lock/Laws.antt =====
-- A lock has one holder at most.
use fptcloud_hc_automation_m.Base.{
  ◌≤◌, ◌<◌, String, true, false, not, none, some, List, ◌∷◌, ◌==◌, ◌≡◌, ◌↔◌, inl, inr, refl, arith,
  Bool-cases, mem, remove, count, count-remove, mem-count, count-keep, eq_iff,
}
use fptcloud_hc_automation_m.Live.Lock.{enter, exit, Locks, Step, Reachable}

-- Each path has a file exactly as often as it has holders, and at most once.
record IsExclusive (s : Locks) : Type 0 where
  same : (path : String) → count path s.files ≡ count path s.holders
  once : (path : String) → count path s.holders ≤ 1

enter_lem :
    (path : String) (files out : List String)
    → enter path files ≡ some out
    → (mem path files ≡ false) × (out ≡ path ∷ files)
unfolding enter
enter_lem path files out h = elim (Bool-cases (mem path files)) [
  | inl in_ ↦ let k = rw in_ at h in cc
  | inr out_ ↦ let k = rw out_ at h in (out_, cc)
]

absent : (path : String) (xs : List String) → mem path xs ≡ false → count path xs ≡ 0
absent path xs h = ground (arith, mem-count path xs)

acquired_lem :
    (s : Locks) (path : String)
    → mem path s.files ≡ false
    → IsExclusive s
    → IsExclusive (record { files = path ∷ s.files; holders = path ∷ s.holders })
unfolding count
acquired_lem s path free m = record {
  same = λ p. ground (arith, m.same p);
  once = λ p. ground (arith, m.same p, m.once p, absent path s.files free, eq_iff path p);
}

released_lem :
    (s : Locks) (path : String)
    → mem path s.holders ≡ true
    → IsExclusive s
    → IsExclusive (record { files = exit true path s.files; holders = remove path s.holders })
unfolding exit
released_lem s path held m =
    let present : 0 < count path s.holders = ground (arith, mem-count path s.holders) in
    record {
      same = λ p. ground (
        arith,
        count-keep (λ f. not (f == path)) p s.files,
        count-remove path p s.holders present,
        m.same p,
        m.once p,
        m.once path,
        eq_iff path p,
        eq_iff p path,
      );
      once = λ p. ground (arith, count-remove path p s.holders present, m.once p);
    }

step-IsExclusive : {s t : Locks} → Step s t → IsExclusive s → IsExclusive t
unfolding exit
step-IsExclusive {s} (Step.acquired path files h) m =
    let (free, e) = enter_lem path s.files files h in rw e (acquired_lem s path free m)
step-IsExclusive {s} (Step.refused path h) m = record { same = m.same; once = m.once }
step-IsExclusive {s} (Step.released path h) m = released_lem s path h m

reachable-IsExclusive : {s : Locks} → Reachable s → IsExclusive s
unfolding count
reachable-IsExclusive Reachable.start = record { same = λ p. refl; once = λ p. omega arith }
reachable-IsExclusive (Reachable.next r st) = step-IsExclusive st (reachable-IsExclusive r)

-- However the holders and those who are refused interleave, a path has at most one holder, and it
-- can be taken exactly if it has none: nobody who is refused removes the file of who holds it, and
-- no file is left behind.
pub exclusive_lem :
    (s : Locks) (path : String)
    → Reachable s
    → (count path s.holders ≤ 1) × ((enter path s.files ≡ none) ↔ (mem path s.holders ≡ true))
unfolding enter
exclusive_lem s path r =
    let m = reachable-IsExclusive r in
    (
      m.once path,
      (
        λ h. ground (arith, mem-count path s.files, mem-count path s.holders, m.same path),
        λ h. ground (arith, mem-count path s.files, mem-count path s.holders, m.same path),
      ),
    )
