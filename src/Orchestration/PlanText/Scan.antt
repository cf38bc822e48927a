-- ===== src/Orchestration/PlanText/Scan.antt =====
-- The search for the end of a JSON object, on every text that is built as JSON texts are.
use gomind.Base.{
  ℕ, suc, ◌+◌, ◌≡◌, refl, ap, ◌∙◌, Bool, true, false, ◌&&◌, List, [], ◌∷◌, ◌++◌, length, All, ◌==◌,
  arith,
}
use gomind.Base.Int.{ℤ, pos, ◌+ℤ◌, ◌-ℤ◌, eqb_ℤ}
use gomind.Orchestration.PlanText.{
  quote, backslash, open_brace, close_brace, Scanner, read_byte, closes, scan,
}

-- What stands in a JSON string: a byte, or an escaped one.
pub data StringPart : Type 0 where
  byte escape : ℕ → StringPart

-- The structure that the search sees: strings, objects and, between them, the bytes of all else,
-- or nothing, as in an empty object.
pub data JsonText : Type 0 where
  nothing : JsonText
  plain : ℕ → JsonText
  quoted : List StringPart → JsonText
  object : JsonText → JsonText
  both : JsonText → JsonText → JsonText

abbrev pub print_part : StringPart → List ℕ
print_part (byte c) = c ∷ []
print_part (escape c) = backslash ∷ c ∷ []

abbrev pub print_parts : List StringPart → List ℕ
print_parts [] = []
print_parts (x ∷ xs) = print_part x ++ print_parts xs

abbrev pub print : JsonText → List ℕ
print nothing = []
print (plain c) = c ∷ []
print (quoted xs) = quote ∷ (print_parts xs ++ (quote ∷ []))
print (object t) = open_brace ∷ (print t ++ (close_brace ∷ []))
print (both t u) = print t ++ print u

abbrev pub IsPart : StringPart → Type 0
IsPart (byte c) = ((c == quote) ≡ false) × ((c == backslash) ≡ false)
IsPart (escape c) = Unit

-- Outside strings there is no quote and no other brace; within them, no quote that is not escaped.
abbrev pub IsJson : JsonText → Type 0
IsJson nothing = Unit
IsJson (plain c) =
    ((c == quote) ≡ false) × ((c == open_brace) ≡ false) × ((c == close_brace) ≡ false)
IsJson (quoted xs) = All IsPart xs
IsJson (object t) = IsJson t
IsJson (both t u) = IsJson t × IsJson u

-- Outside of strings, at a depth.
abbrev pub outside : ℕ → Scanner
outside d = record { depth = pos d; in_string = false; escaped = false }

abbrev inside : ℕ → Scanner
inside d = record { depth = pos d; in_string = true; escaped = false }

append_assoc : (xs ys zs : List ℕ) → (xs ++ ys) ++ zs ≡ xs ++ (ys ++ zs)
append_assoc [] ys zs = refl
append_assoc (x ∷ xs) ys zs = ap (λ l. x ∷ l) (append_assoc xs ys zs)

-- One byte that does not close the object.
scan_byte :
    (c i : ℕ) (st st' : Scanner) (cs : List ℕ)
    → closes c st ≡ false
    → read_byte c st ≡ st'
    → scan i st (c ∷ cs) ≡ scan (suc i) st' cs
unfolding scan
scan_byte c i st st' cs stays next = rw (stays, next) refl

within_byte :
    (c d : ℕ) → (c == quote) ≡ false → (c == backslash) ≡ false → read_byte c (inside d) ≡ inside d
unfolding read_byte
within_byte c d q b = rw (q, b) refl

scan_parts :
    (xs : List StringPart) (rest : List ℕ) (i j d : ℕ)
    → All IsPart xs
    → j ≡ length (print_parts xs) + i
    → scan i (inside d) (print_parts xs ++ rest) ≡ scan j (inside d) rest
unfolding read_byte closes
scan_parts [] rest i j d h e = ap (λ (k : ℕ). scan k (inside d) rest) (omega arith)
scan_parts (byte c ∷ xs) rest i j d ((q, b), hs) e =
    scan_byte c i (inside d) (inside d) (print_parts xs ++ rest) refl (within_byte c d q b)
    ∙ scan_parts xs rest (suc i) j d hs (omega arith)
scan_parts (escape c ∷ xs) rest i j d (h, hs) e =
    scan_byte backslash i (inside d) (record (inside d) { escaped = true })
      (c ∷ (print_parts xs ++ rest)) refl refl
    ∙ scan_byte c (suc i) (record (inside d) { escaped = true }) (inside d) (print_parts xs ++ rest)
        refl refl
    ∙ scan_parts xs rest (suc (suc i)) j d hs (omega arith)

length_append : (xs ys : List ℕ) → length (xs ++ ys) ≡ length xs + length ys
length_append [] ys = omega arith
length_append (x ∷ xs) ys = let e = length_append xs ys in omega arith

and_false : (b : Bool) → (b && false) ≡ false
and_false true = refl
and_false false = refl

plain_byte :
    (c d : ℕ)
    → IsJson (plain c)
    → (read_byte c (outside d) ≡ outside d) × (closes c (outside d) ≡ false)
unfolding read_byte closes
plain_byte c d (q, o, b) = (rw (and_false (c == backslash), q, o, b) refl, rw b refl)

abbrev at_depth : ℤ → Scanner
at_depth z = record { depth = z; in_string = false; escaped = false }

one_more : (d : ℕ) → pos d +ℤ pos 1 ≡ pos (suc d)
unfolding ◌+ℤ◌
one_more d = ground arith

one_less : (d : ℕ) → pos (suc d) -ℤ pos 1 ≡ pos d
unfolding ◌-ℤ◌
one_less d = ground arith

up : (d : ℕ) → read_byte open_brace (outside d) ≡ outside (suc d)
unfolding read_byte
up d = ap at_depth (one_more d)

down : (d : ℕ) → read_byte close_brace (outside (suc d)) ≡ outside d
unfolding read_byte
down d = ap at_depth (one_less d)

stays_open : (d : ℕ) → closes close_brace (outside (suc (suc d))) ≡ false
unfolding closes
stays_open d = ap (λ (z : ℤ). eqb_ℤ z (pos 0)) (one_less (suc d)) ∙ ground arith

-- Inside an object, a whole text brings the search back to where it was.
scan-print :
    (t : JsonText) (rest : List ℕ) (i j d : ℕ)
    → IsJson t
    → j ≡ length (print t) + i
    → scan i (outside (suc d)) (print t ++ rest) ≡ scan j (outside (suc d)) rest
unfolding read_byte closes
scan-print nothing rest i j d h e = ap (λ (k : ℕ). scan k (outside (suc d)) rest) (omega arith)
scan-print (plain c) rest i j d h e =
    let (next, stays) = plain_byte c (suc d) h in
    scan_byte c i (outside (suc d)) (outside (suc d)) rest stays next
    ∙ ap (λ (k : ℕ). scan k (outside (suc d)) rest) (omega arith)
scan-print (quoted xs) rest i j d h e =
    let n = length_append (print_parts xs) (quote ∷ []) in
    ap (λ (l : List ℕ). scan i (outside (suc d)) (quote ∷ l))
      (append_assoc (print_parts xs) (quote ∷ []) rest)
    ∙ scan_byte quote i (outside (suc d)) (inside (suc d)) (print_parts xs ++ (quote ∷ rest)) refl
        refl
    ∙ scan_parts xs (quote ∷ rest) (suc i) (length (print_parts xs) + suc i) (suc d) h refl
    ∙ scan_byte quote (length (print_parts xs) + suc i) (inside (suc d)) (outside (suc d)) rest refl
        refl
    ∙ ap (λ (k : ℕ). scan k (outside (suc d)) rest) (omega arith)
scan-print (object t) rest i j d h e =
    let n = length_append (print t) (close_brace ∷ []) in
    ap (λ (l : List ℕ). scan i (outside (suc d)) (open_brace ∷ l))
      (append_assoc (print t) (close_brace ∷ []) rest)
    ∙ scan_byte open_brace i (outside (suc d)) (outside (suc (suc d)))
        (print t ++ (close_brace ∷ rest)) refl (up (suc d))
    ∙ scan-print t (close_brace ∷ rest) (suc i) (length (print t) + suc i) (suc d) h refl
    ∙ scan_byte close_brace (length (print t) + suc i) (outside (suc (suc d))) (outside (suc d))
        rest (stays_open d) (down (suc d))
    ∙ ap (λ (k : ℕ). scan k (outside (suc d)) rest) (omega arith)
scan-print (both t u) rest i j d (ht, hu) e =
    let n = length_append (print t) (print u) in
    ap (λ (l : List ℕ). scan i (outside (suc d)) l) (append_assoc (print t) (print u) rest)
    ∙ scan-print t (print u ++ rest) i (length (print t) + i) d ht refl
    ∙ scan-print u rest (length (print t) + i) j d hu (omega arith)

-- From the brace that opens an object, the search ends just behind the one that closes it.
pub scan-object :
    (t : JsonText) (rest : List ℕ) (i : ℕ)
    → IsJson t
    → scan i (outside 0) (print (object t) ++ rest) ≡ pos (length (print (object t)) + i)
unfolding read_byte closes scan ◌-ℤ◌
scan-object t rest i h =
    let n = length_append (print t) (close_brace ∷ []) in
    ap (λ (l : List ℕ). scan i (outside 0) (open_brace ∷ l))
      (append_assoc (print t) (close_brace ∷ []) rest)
    ∙ scan_byte open_brace i (outside 0) (outside 1) (print t ++ (close_brace ∷ rest)) refl (up 0)
    ∙ scan-print t (close_brace ∷ rest) (suc i) (length (print t) + suc i) 0 h refl
    ∙ ap pos (omega arith)
