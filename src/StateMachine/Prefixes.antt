-- ===== src/StateMachine/Prefixes.antt =====
-- The names under which a state machine registers and unregisters its callbacks (statemachine.py).
use Prim.Native.String.{[], ◌∷◌, ◌++◌ as concat}
use Prim.Native.String.append
use ewm_cloud_robotics.Prelude.{
  String, str_eq, eq_iff, ◌≡◌, refl, sym, ap, ◌∙◌, Bool, true, false, Bool-cases, inl, inr,
}

rest : String → String
rest [] = ""
rest (c ∷ s) = s

starts_with_underscore : String → Bool
starts_with_underscore [] = false
starts_with_underscore (c ∷ s) = str_eq (c ∷ []) "_"

abbrev has_char : String → Bool
has_char [] = false
has_char (c ∷ s) = true

rest-concat : (s t : String) → has_char s ≡ true → rest (concat s t) ≡ concat (rest s) t
unfolding rest
rest-concat [] t h = cc
rest-concat (c ∷ s) t h = λ i. rest (append.cons c s t i)

starts_with_underscore-concat :
    (s t : String)
    → has_char s ≡ true
    → starts_with_underscore (concat s t) ≡ starts_with_underscore s
unfolding starts_with_underscore
starts_with_underscore-concat [] t h = cc
starts_with_underscore-concat (c ∷ s) t h = λ i. starts_with_underscore (append.cons c s t i)

fourth :
    (s t : String)
    → has_char s ≡ true
    → has_char (rest s) ≡ true
    → has_char (rest (rest s)) ≡ true
    → has_char (rest (rest (rest s))) ≡ true
    → starts_with_underscore (rest (rest (rest (concat s t))))
      ≡ starts_with_underscore (rest (rest (rest s)))
fourth s t a b c d =
    ap (λ u. starts_with_underscore (rest (rest u))) (rest-concat s t a)
    ∙ ap (λ u. starts_with_underscore (rest u)) (rest-concat (rest s) t b)
    ∙ ap starts_with_underscore (rest-concat (rest (rest s)) t c)
    ∙ starts_with_underscore-concat (rest (rest (rest s))) t d

-- They differ in the fourth character.
pub prefixes_differ :
    (robot : String)
    → str_eq (concat "ewm_statemachine_" robot) (concat "ewm-statemachine-" robot) ≡ false
unfolding rest starts_with_underscore
prefixes_differ robot =
    let new = concat "ewm_statemachine_" robot in
    let old = concat "ewm-statemachine-" robot in
    elim (Bool-cases (str_eq new old)) [
      | inl y ↦
          let k : true ≡ false =
            sym (fourth "ewm_statemachine_" robot refl refl refl refl)
            ∙ ap (λ s. starts_with_underscore (rest (rest (rest s)))) ((eq_iff new old).0 y)
            ∙ fourth "ewm-statemachine-" robot refl refl refl refl in
          cc k
      | inr n ↦ n
    ]
