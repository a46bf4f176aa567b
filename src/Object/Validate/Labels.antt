-- ===== src/Object/Validate/Labels.antt =====
-- A valid name holds no dot, so the allocators' names, which join two of them with a dot, do not
-- collide (internal/object/validate.go, internal/controller/vip.go and ingress.go).
use Prim.Native.Char.{Char, code}
use Prim.Native.String.append
use k_lite.Common.{
  Bool, String, ap, arith, concat, eqb, false, false≢true, none, not, refl, subst, sym, true, ◌&&◌,
  ◌∙◌, ◌≡◌, ◌≢◌,
}
use k_lite.Object.Validate.{is_alnum, is_dns_label, label_rest, validate_name}
use k_lite.Controller.Vip.{allocation_name}

-- No character is a dot.
abbrev no_dot : String → Bool
no_dot String.[] = true
no_dot (String.◌∷◌ c s) = not (eqb (code c) 46) && no_dot s

label_rest-no_dot : (b : Bool) (s : String) → label_rest b s ≡ true → no_dot s ≡ true
unfolding label_rest is_alnum
label_rest-no_dot b String.[] h = refl
label_rest-no_dot b (String.◌∷◌ c s) h =
    ground (arith, label_rest-no_dot true s, label_rest-no_dot false s)

validate_name-no_dot : (s : String) → validate_name s ≡ none → no_dot s ≡ true
unfolding validate_name is_dns_label is_alnum
validate_name-no_dot String.[] h = refl
validate_name-no_dot (String.◌∷◌ c s) h = ground (arith, label_rest-no_dot true s)

dotted_nil : (t : String) → concat String.[] (concat "." t) ≡ String.◌∷◌ "." t
dotted_nil t =
    append.nil (concat "." t)
    ∙ append.cons "." String.[] t
    ∙ ap (λ (u : String). String.◌∷◌ "." u) (append.nil t)

dotted_cons :
    (c : Char) (s t : String)
    → concat (String.◌∷◌ c s) (concat "." t) ≡ String.◌∷◌ c (concat s (concat "." t))
dotted_cons c s t = append.cons c s (concat "." t)

-- A text that starts with a dot and one that starts with another character differ.
dot_or_not :
    (d : Char) (t u : String) → not (eqb (code d) 46) ≡ true → String.◌∷◌ "." t ≢ String.◌∷◌ d u
dot_or_not d t u h e =
    let same : "." ≡ d = cc e in
    false≢true (subst (λ (c : Char). not (eqb (code c) 46) ≡ true) (sym same) h)

split_at_dot :
    (s s' t t' : String)
    → no_dot s ≡ true
    → no_dot s' ≡ true
    → concat s (concat "." t) ≡ concat s' (concat "." t')
    → (s ≡ s') × (t ≡ t')
split_at_dot String.[] String.[] t t' h k e =
    let same : String.◌∷◌ "." t ≡ String.◌∷◌ "." t' = sym (dotted_nil t) ∙ e ∙ dotted_nil t' in
    (refl, cc same)
split_at_dot String.[] (String.◌∷◌ d s') t t' h k e = absurd (
    dot_or_not d t (concat s' (concat "." t')) (ground arith)
      (sym (dotted_nil t) ∙ e ∙ dotted_cons d s' t'))
split_at_dot (String.◌∷◌ c s) String.[] t t' h k e = absurd (
    dot_or_not c t' (concat s (concat "." t)) (ground arith)
      (sym (dotted_nil t') ∙ sym e ∙ dotted_cons c s t))
split_at_dot (String.◌∷◌ c s) (String.◌∷◌ d s') t t' h k e =
    let both : String.◌∷◌ c (concat s (concat "." t)) ≡ String.◌∷◌ d (concat s' (concat "." t')) =
      sym (dotted_cons c s t) ∙ e ∙ dotted_cons d s' t' in
    let tails = split_at_dot s s' t t' (ground arith) (ground arith) (cc both) in
    let heads : c ≡ d = cc both in (cc (heads, tails.0), tails.1)

-- Two allocations with valid services have the same name only for the same pair: the dot between
-- the two parts cannot stand in a valid name.
pub allocation_name-injective :
    (service service' node node' : String)
    → validate_name service ≡ none
    → validate_name service' ≡ none
    → allocation_name service node ≡ allocation_name service' node'
    → (service ≡ service') × (node ≡ node')
allocation_name-injective service service' node node' h k e =
    split_at_dot service service' node node' (validate_name-no_dot service h)
      (validate_name-no_dot service' k) e
