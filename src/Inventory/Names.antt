-- ===== src/Inventory/Names.antt =====
-- Two forms of name that count as a health check's.
use fptcloud_hc_automation_m.Base.{
  ℕ, ◌≤◌, String, true, List, [], ◌∷◌, ◌++◌, ◌≡◌, refl, arith, codes, lower, all, length,
}
use fptcloud_hc_automation_m.Inventory.{alnum, alnum_run, at_end, starts_run, is_hc_name}

run_all :
    (xs : List ℕ) → all alnum xs ≡ true → ((alnum_run xs).0 ≡ length xs) × ((alnum_run xs).1 ≡ [])
unfolding alnum_run all
run_all [] h = (refl, refl)
run_all (x ∷ xs) h =
    let here : alnum x ≡ true = ground arith in
    let (n, rest) = run_all xs (ground arith) in rw here (omega (arith, n), rest)

run_some : (xs ys : List ℕ) → all alnum xs ≡ true → length xs ≤ (alnum_run (xs ++ ys)).0
unfolding alnum_run all
run_some [] ys h = omega arith
run_some (x ∷ xs) ys h =
    let here : alnum x ≡ true = ground arith in
    let n = run_some xs ys (ground arith) in rw here (omega (arith, n))

-- `hcw` with six to fourteen letters and digits.
pub hcw_name :
    (name : String) (xs : List ℕ)
    → lower name ≡ codes "hcw" ++ xs
    → all alnum xs ≡ true
    → 6 ≤ length xs
    → length xs ≤ 14
    → is_hc_name name ≡ true
unfolding is_hc_name starts_run at_end
hcw_name name xs e h l u = let (n, rest) = run_all xs h in rw (e, n, rest) (ground arith)

-- `hcl-` with eight letters and digits, whatever follows.
pub hcl_name :
    (name : String) (xs ys : List ℕ)
    → lower name ≡ codes "hcl-" ++ (xs ++ ys)
    → all alnum xs ≡ true
    → 8 ≤ length xs
    → is_hc_name name ≡ true
unfolding is_hc_name starts_run at_end
hcl_name name xs ys e h l = rw e (ground (arith, run_some xs ys h))
