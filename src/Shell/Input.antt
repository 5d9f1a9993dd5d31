-- ===== src/Shell/Input.antt =====
-- internal/streamtype/shell.go: what reaches a running shell. The process and its terminal are outside:
-- what is written to them is the list of effects.
use bitbang_cli.Prelude.{
  Bool, List, All, ◌++◌, Text, ◌∷◌, if◌then◌else◌, ℕ, true, ◌==◌, [], ltb, length, slice, on_if,
  All-append,
}
use bitbang_cli.Wire.{Bytes, little_endian}

pub data Effect : Type 0 where
  input : Bytes → Effect
  signal : Text → Effect
  resized : ℕ → ℕ → Effect
  end_of_input terminated : Effect

pub data ShellFrame : Type 0 where
  dat : Bytes → ShellFrame
  fin reset : ShellFrame

-- One frame for a stream that is open; a signal's name is its body, and whether there is such a signal
-- is the platform's matter.
unfoldable pub on_frame : Bool → ShellFrame → List Effect
on_frame view_only (dat []) = []
on_frame view_only (dat (tag ∷ body)) =
    if tag == 0
    then (if view_only then [] else input body ∷ [])
    else if tag == 3
    then (if view_only then [] else signal body ∷ [])
    else if tag == 4
    then (if ltb (length body) 4
        then []
        else resized (little_endian (slice 0 2 body)) (little_endian (slice 2 4 body)) ∷ [])
    else []
on_frame view_only fin = if view_only then [] else end_of_input ∷ []
on_frame view_only reset = terminated ∷ (end_of_input ∷ [])

unfoldable pub on_frames : Bool → List ShellFrame → List Effect
unfolding on_frame
on_frames view_only [] = []
on_frames view_only (f ∷ fs) = on_frame view_only f ++ on_frames view_only fs

abbrev pub IsResize : Effect → Type 0
IsResize (resized c r) = Unit
IsResize (input body) = ⊥
IsResize (signal name) = ⊥
IsResize end_of_input = ⊥
IsResize terminated = ⊥

abbrev pub IsReset : ShellFrame → Type 0
IsReset (dat b) = ⊥
IsReset fin = ⊥
IsReset reset = Unit

one_frame : (f : ShellFrame) → (IsReset f → ⊥) → All IsResize (on_frame true f)
unfolding on_frame
one_frame (dat []) h = tt
one_frame (dat (tag ∷ body)) h =
    on_if (All IsResize) (tag == 0) _ _ (λ c. tt)
      (λ c.
        on_if (All IsResize) (tag == 3) _ _ (λ c. tt)
          (λ c.
            on_if (All IsResize) (tag == 4) _ _
              (λ c. on_if (All IsResize) (ltb (length body) 4) _ _ (λ c. tt) (λ c. (tt, tt)))
              (λ c. tt)))
one_frame fin h = tt
one_frame reset h = absurd (h tt)

-- What a view-only connection sends in data and end frames resizes its own terminal and does nothing
-- else: nothing is typed, no signal is sent and the input is not ended.
pub view_only_resizes :
    (fs : List ShellFrame) → All (λ f. IsReset f → ⊥) fs → All IsResize (on_frames true fs)
unfolding on_frames on_frame
view_only_resizes [] h = tt
view_only_resizes (f ∷ fs) h =
    All-append IsResize (on_frame true f) (on_frames true fs) (one_frame f h.0)
      (view_only_resizes fs h.1)
