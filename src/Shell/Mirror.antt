-- ===== src/Shell/Mirror.antt =====
-- internal/streamtype/shell.go: lineMirror, the listener's own view of a shell's output. The regular
-- expression of escape sequences is a parameter.
use Prim.Native.String.{[], ◌∷◌}
use bitbang_cli.Prelude.{
  ℕ, List, ◌≡◌, Bool, ◌++◌, All, [], ◌∷◌, leb, ◌==◌, if◌then◌else◌, is_empty, false, ◌||◌, refl,
  ◌&&◌, true, text_eq, ap, ◌∙◌, suc, sym, zero, arith, Bool-cases, inl, inr, text_eq_refl,
}
use Prim.Native.Nat.{ℕ, suc}
use bitbang_cli.Wire.{Bytes}
use mathlib.Core.List.{append-nil, append_assoc}

-- `lines` are the cleaned lines written so far, before the prefix and the colour.
pub record LineMirror : Type 0 where
  pub buf : Bytes
  pub last_redraw : Bytes
  pub lines : List Bytes

abbrev pub new_line_mirror : LineMirror
new_line_mirror = record { buf = []; last_redraw = []; lines = [] }

-- The class that `otherControl` strips.
abbrev pub other_control : ℕ → Bool
other_control b = leb b 8 || ((leb 11 b && leb b 31) || b == 127)

unfoldable pub strip_control : Bytes → Bytes
strip_control [] = []
strip_control (b ∷ bs) = let rest = strip_control bs in if other_control b then rest else b ∷ rest

module _ (ansi_escape : Bytes → Bytes) where
  unfoldable pub flush_line : Bool → LineMirror → LineMirror
  unfolding strip_control
  flush_line is_redraw m =
      if is_empty m.buf
      then m
      else (let cleaned = strip_control (ansi_escape m.buf) in
          let reset : LineMirror = record m { buf = [] } in
          if is_empty cleaned
          then reset
          else if is_redraw
          then (if text_eq cleaned m.last_redraw
              then reset
              else record reset { last_redraw = cleaned; lines = m.lines ++ (cleaned ∷ []) })
          else record reset { last_redraw = []; lines = m.lines ++ (cleaned ∷ []) })

  unfoldable pub mirror_byte : ℕ → LineMirror → LineMirror
  unfolding flush_line
  mirror_byte b m =
      if b == 10
      then flush_line false m
      else if b == 13
      then flush_line true m
      else record m { buf = m.buf ++ (b ∷ []) }

  unfoldable pub mirror_write : Bytes → LineMirror → LineMirror
  unfolding mirror_byte
  mirror_write [] m = m
  mirror_write (b ∷ bs) m = mirror_write bs (mirror_byte b m)

  -- A line of the process, with its terminator, is written whole.
  abbrev IsLine : Bytes → Type 0
  IsLine line = All (λ b. ((b == 10) ≡ false) × ((b == 13) ≡ false)) line

  mirror_write-append :
      (p q : Bytes) (m : LineMirror) → mirror_write (p ++ q) m ≡ mirror_write q (mirror_write p m)
  unfolding mirror_write
  mirror_write-append [] q m = refl
  mirror_write-append (b ∷ p) q m = mirror_write-append p q (mirror_byte b m)

  mirror_write-line :
      (line : Bytes) (m : LineMirror)
      → IsLine line
      → mirror_write line m ≡ record m { buf = m.buf ++ line }
  unfolding mirror_write mirror_byte
  mirror_write-line [] m h = ap (λ b. record m { buf = b }) (sym (append-nil m.buf))
  mirror_write-line (b ∷ line) m h =
      let step : mirror_byte b m ≡ record m { buf = m.buf ++ (b ∷ []) } = ground (arith, h.0) in
      ap (mirror_write line) step
      ∙ mirror_write-line line (record m { buf = m.buf ++ (b ∷ []) }) h.1
      ∙ ap (λ c. record m { buf = c }) (append_assoc m.buf (b ∷ []) line)

  -- The same line, drawn over itself `n` times.
  abbrev pub redraws : ℕ → Bytes → Bytes
  redraws zero line = []
  redraws (suc n) line = (line ++ (13 ∷ [])) ++ redraws n line

  redraw_once :
      (line : Bytes) (m : LineMirror)
      → IsLine line
      → m.buf ≡ []
      → is_empty (strip_control (ansi_escape line)) ≡ false
      → is_empty line ≡ false
      → mirror_write (line ++ (13 ∷ [])) m ≡ (
          let cleaned = strip_control (ansi_escape line) in
          if text_eq cleaned m.last_redraw
          then m
          else record m { last_redraw = cleaned; lines = m.lines ++ (cleaned ∷ []) })
  unfolding mirror_write mirror_byte flush_line
  redraw_once line m h empty visible full =
      mirror_write-append line (13 ∷ []) m
      ∙ ap (mirror_write (13 ∷ [])) (mirror_write-line line m h)
      ∙ (let whole : m.buf ++ line ≡ line = ap (λ b. b ++ line) empty in ground (arith, whole))

  redraws_settled :
      (n : ℕ) (line : Bytes) (m : LineMirror)
      → IsLine line
      → m.buf ≡ []
      → is_empty (strip_control (ansi_escape line)) ≡ false
      → is_empty line ≡ false
      → text_eq (strip_control (ansi_escape line)) m.last_redraw ≡ true
      → mirror_write (redraws n line) m ≡ m
  unfolding mirror_write
  redraws_settled zero line m h empty visible full same = refl
  redraws_settled (suc n) line m h empty visible full same =
      mirror_write-append (line ++ (13 ∷ [])) (redraws n line) m
      ∙ ap (mirror_write (redraws n line))
          (redraw_once line m h empty visible full ∙ (ground (arith)))
      ∙ redraws_settled n line m h empty visible full same

  -- A line that shows something and is drawn over itself any number of times is mirrored once, and not
  -- at all where it is what the last redraw showed.
  pub redraws_mirrored_once :
      (n : ℕ) (line : Bytes) (m : LineMirror)
      → IsLine line
      → m.buf ≡ []
      → is_empty (strip_control (ansi_escape line)) ≡ false
      → is_empty line ≡ false
      → mirror_write (redraws (suc n) line) m ≡ (
          let cleaned = strip_control (ansi_escape line) in
          if text_eq cleaned m.last_redraw
          then m
          else record m { last_redraw = cleaned; lines = m.lines ++ (cleaned ∷ []) })
  redraws_mirrored_once n line m h empty visible full =
      let cleaned = strip_control (ansi_escape line) in
      let drawn : LineMirror = record m {
        last_redraw = cleaned;
        lines = m.lines ++ (cleaned ∷ []);
      } in
      mirror_write-append (line ++ (13 ∷ [])) (redraws n line) m
      ∙ ap (mirror_write (redraws n line)) (redraw_once line m h empty visible full)
      ∙ (elim (Bool-cases (text_eq cleaned m.last_redraw)) [
        | inl same ↦
            ap (λ c. mirror_write (redraws n line) (if c then m else drawn)) same
            ∙ redraws_settled n line m h empty visible full same
            ∙ sym (ap (λ c. if c then m else drawn) same)
        | inr other ↦
            ap (λ c. mirror_write (redraws n line) (if c then m else drawn)) other
            ∙ redraws_settled n line drawn h empty visible full (text_eq_refl cleaned)
            ∙ sym (ap (λ c. if c then m else drawn) other)
      ])
