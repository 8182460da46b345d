-- ===== src/Live/Password/Tests.antt =====
-- A password of twelve characters, where the first character is chosen each time.
use fptcloud_hc_automation_m.Base.{ℕ, ◌/◌, true, some, List, [], ◌∷◌, ◌≡◌, arith, length, any}
use fptcloud_hc_automation_m.Live.Password.{generate_instance_password, password_policy_valid}
use fptcloud_hc_automation_m.Live.Password.Laws.{IsChoice, generated_lem}

abbrev first_choice : ℕ → List ℕ → ℕ
first_choice k [] = 0
first_choice k (x ∷ xs) = x

first-IsChoice : IsChoice first_choice
unfolding any
first-IsChoice k x xs = ground arith

generated_lem_example :
    (password : List ℕ) × (generate_instance_password first_choice (λ k. k / 2) 12 ≡ some password)
    × (length password ≡ 12)
    × (password_policy_valid password ≡ true)
generated_lem_example =
    generated_lem first_choice (λ k. k / 2) 12 first-IsChoice (λ k. omega arith) (omega arith)
