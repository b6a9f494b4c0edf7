-- ===== src/JournalText/Lines.antt =====
-- Lines, words and blanks, as the parser sees what the writer wrote.
use coredns_ez.Prelude.{
  ℕ, ◌≡◌, ◌≢◌, ◌≤◌, refl, sym, ap, ◌∙◌, false, some, List, [], ◌∷◌, ◌++◌, All, length, last,
  append_assoc, append-nil, length-append, arith, nat_tests,
}
use coredns_ez.JournalText.Scan.{
  Text, push_char, scan_raw, is_space, trim_left, trim_right, trim_space, emit, fields_from,
  drop_cr, line_text,
}

abbrev pub NoBreak : ℕ → Type 0
NoBreak c = c ≢ b'\n'

abbrev pub IsSolid : ℕ → Type 0
IsSolid c = is_space c ≡ false

scan_raw-char : (c : ℕ) (cs : Text) → c ≢ b'\n' → scan_raw (c ∷ cs) ≡ push_char c (scan_raw cs)
unfolding scan_raw
scan_raw-char c cs h = ground (arith, h)

pub scan_raw-line :
    (l rest : Text) → All NoBreak l → scan_raw (l ++ b'\n' ∷ rest) ≡ l ∷ scan_raw rest
unfolding scan_raw push_char
scan_raw-line [] rest a = refl
scan_raw-line (c ∷ l) rest (p, a) =
    scan_raw-char c (l ++ b'\n' ∷ rest) p ∙ ap (push_char c) (scan_raw-line l rest a)

trim_right-last : (l : Text) (c : ℕ) → last l ≡ some c → IsSolid c → trim_right l ≡ l
unfolding trim_right
trim_right-last [] c h s = refl
trim_right-last (d ∷ []) c h s = ground (arith, h, s)
trim_right-last (d ∷ e ∷ l) c h s = rw (trim_right-last (e ∷ l) c h s) refl

drop_cr-last : (l : Text) (c : ℕ) → last l ≡ some c → IsSolid c → drop_cr l ≡ l
unfolding drop_cr is_space
drop_cr-last [] c h s = refl
drop_cr-last (d ∷ []) c h s = ground (arith, h, s)
drop_cr-last (d ∷ e ∷ l) c h s = ap (◌∷◌ d) (drop_cr-last (e ∷ l) c h s)

trim_left-solid : (c : ℕ) (l : Text) → IsSolid c → trim_left (c ∷ l) ≡ c ∷ l
unfolding trim_left
trim_left-solid c l s = rw s refl

-- a line that starts and ends with something
pub trim_space-solid :
    (c : ℕ) (l : Text) (d : ℕ)
    → IsSolid c
    → last (c ∷ l) ≡ some d
    → IsSolid d
    → trim_space (line_text (c ∷ l)) ≡ c ∷ l
unfolding trim_space line_text
trim_space-solid c l d s h t =
    ap (λ x. trim_right (trim_left x)) (drop_cr-last (c ∷ l) d h t)
    ∙ ap trim_right (trim_left-solid c l s)
    ∙ trim_right-last (c ∷ l) d h t

trim_right-head : (c : ℕ) (l : Text) → IsSolid c → (r : Text) × (trim_right (c ∷ l) ≡ c ∷ r)
unfolding trim_right
trim_right-head c l s = split (trim_right l) refl
  where
    split : (o : Text) → trim_right l ≡ o → (r : Text) × (trim_right (c ∷ l) ≡ c ∷ r)
    split [] q = ([], rw (q, s) refl)
    split (d ∷ ds) q = (d ∷ ds, rw q refl)

drop_cr-head : (c : ℕ) (l : Text) → IsSolid c → (r : Text) × (drop_cr (c ∷ l) ≡ c ∷ r)
unfolding drop_cr is_space
drop_cr-head c [] s = ([], ground (arith, s))
drop_cr-head c (d ∷ l) s = (drop_cr (d ∷ l), refl)

-- a line that starts with something, whatever it ends in
pub trim_space-head :
    (c : ℕ) (l : Text) → IsSolid c → (r : Text) × (trim_space (line_text (c ∷ l)) ≡ c ∷ r)
unfolding trim_space line_text
trim_space-head c l s =
    let (r, q) = drop_cr-head c l s in
    let (r', q') = trim_right-head c r s in
    (r', ap (λ x. trim_right (trim_left x)) q ∙ ap trim_right (trim_left-solid c r s) ∙ q')

emit-full : (w : Text) (ws : List Text) → 1 ≤ length w → emit w ws ≡ w ∷ ws
unfolding emit
emit-full [] ws h = ground (arith, h)
emit-full (c ∷ w) ws h = refl

fields_from-solid :
    (field : Text) (c : ℕ) (cs : Text)
    → IsSolid c
    → fields_from field (c ∷ cs) ≡ fields_from (field ++ c ∷ []) cs
unfolding fields_from is_space
fields_from-solid field c cs h = ground (arith, h)

-- one word, and what follows the blank behind it
pub fields_from-word :
    (field w rest : Text)
    → All IsSolid w
    → 1 ≤ length (field ++ w)
    → fields_from field (w ++ b' ' ∷ rest) ≡ (field ++ w) ∷ fields_from [] rest
unfolding fields_from
fields_from-word field [] rest a h =
    emit-full field (fields_from [] rest) (omega (arith, h, length-append field []))
    ∙ ap (λ f. f ∷ fields_from [] rest) (sym (append-nil field))
fields_from-word field (c ∷ w) rest (p, a) h =
    fields_from-solid field c (w ++ b' ' ∷ rest) p
    ∙ fields_from-word (field ++ c ∷ []) w rest a
        (omega (arith, length-append (field ++ c ∷ []) w, length-append field (c ∷ [])))
    ∙ ap (λ f. f ∷ fields_from [] rest) (append_assoc field (c ∷ []) w)

pub fields_from-last :
    (field w : Text)
    → All IsSolid w
    → 1 ≤ length (field ++ w)
    → fields_from field w ≡ (field ++ w) ∷ []
unfolding fields_from
fields_from-last field [] a h =
    emit-full field [] (omega (arith, h, length-append field []))
    ∙ ap (λ f. f ∷ []) (sym (append-nil field))
fields_from-last field (c ∷ w) (p, a) h =
    fields_from-solid field c w p
    ∙ fields_from-last (field ++ c ∷ []) w a
        (omega (arith, length-append (field ++ c ∷ []) w, length-append field (c ∷ [])))
    ∙ ap (λ f. f ∷ []) (append_assoc field (c ∷ []) w)

pub last-append-full : (xs ys : Text) → 1 ≤ length ys → last (xs ++ ys) ≡ last ys
last-append-full [] ys h = refl
last-append-full (x ∷ []) [] h = ground (arith, h)
last-append-full (x ∷ []) (y ∷ ys) h = refl
last-append-full (x ∷ z ∷ xs) ys h = last-append-full (z ∷ xs) ys h

pub last-All :
    (P : ℕ → Type 0) (xs : Text) → All P xs → 1 ≤ length xs → (d : ℕ) × (last xs ≡ some d) × P d
last-All P [] a h = ground (arith, h)
last-All P (x ∷ []) (p, a) h = (x, refl, p)
last-All P (x ∷ y ∷ xs) (p, a) h = last-All P (y ∷ xs) a (omega arith)
