-- ===== src/Shell/Round/Prompt.antt =====
-- The prompt of the shell.
use mya_xos.Base.{
  ℕ, ◌+◌, ◌<◌, ◌≤◌, ◌≡◌, refl, sym, ap, ◌∙◌, Bool, Option, List, [], ◌∷◌, ◌++◌, true, false, arith,
}
use Prim.Native.String.{String}
use mathlib.Core.Path.{subst}
use mya_xos.Memory.{Memory, within, CString}
use mya_xos.Allocator.{Allocator}
use mya_xos.Vga.{Console}
use mya_xos.Vga.Terminal.{Terminal, Shows}
use mya_xos.Report.{codes}
use mya_xos.Report.Formats.{format, is_format, is_piece, are_pieces, same_bytes, is_format-IsFormat}
use mya_xos.Report.Play.{kept, run_script-Plays}
use mya_xos.Vfs.{done, Driver}
use mya_xos.Shell.Commands.{Shell, print}
use mya_xos.Vga.{blank}
use mya_xos.Vga.Puts.{type_text}
use mya_xos.Line.Shown.{IsTyped}
use mya_xos.Str.Text.{CString-unique}
use mya_xos.Print.Pieces.{Renders, ends, itself, text_at}
use mya_xos.Shell.Round.{prompt, IsPrompting}

-- The text of the prompt in the directory `dir`.
abbrev pub prompt_text : List ℕ → List ℕ
prompt_text dir = codes "MyaXOS " ++ dir ++ codes "> "

prompt-Renders :
    (m : Memory) (path : ℕ) (dir out : List ℕ)
    → CString m path dir
    → Renders m (format (codes "MyaXOS %s> ")) (path ∷ []) out
    → out ≡ prompt_text dir
unfolding format
prompt-Renders m path dir out there
      (itself _ (
        itself _ (
          itself _ (
            itself _ (
              itself _
                (itself _ (itself _ (text_at _ bs held text (itself _ (itself _ ends)))))))))) =
    ap (λ l. codes "MyaXOS " ++ l ++ codes "> ") (CString-unique m path bs dir held there)

module _ {a : Allocator} (d : Driver a) (v w fuel buf screen path buffer : ℕ) (literal : String → ℕ)
    (mapped : ℕ → Bool) (fs_root : Option (d.Node)) (narrow : w ≤ 40) (patient : v ≤ fuel)
    (wide : 10 ≤ w) (enough : 1024 + w ≤ fuel)
    (apart : (x : ℕ) → buf ≤ x → x < buf + 1024 → within screen 4000 x ≡ false) where
  -- The prompt is printed, with the working directory `dir`.
  pub prompt-done :
      (dir : List ℕ) (t : Terminal) (s : Shell d)
      → IsPrompting d v w fuel buf screen path buffer literal t s
      → CString (s.console.mem) path dir
      → (c : Console) × (print d fuel buf path literal mapped fs_root
            (prompt d v w fuel buf screen path buffer literal)
            s
          ≡ done (record s { console = c }))
        × IsTyped v (prompt_text dir) t (s.console) c
        × ((x : ℕ)
            → kept v w fuel buf screen literal (s.console.mem) x ≡ true
            → c.mem x ≡ s.console.mem x)
  unfolding is_format format is_piece are_pieces same_bytes
  prompt-done dir t s h there =
      let (c, q, run, plays, after) =
        run_script-Plays v w fuel buf screen literal (s.console.mem) patient wide enough apart
          (prompt d v w fuel buf screen path buffer literal) (s.console.attrib, t) (s.console)
          (
            record {
              held = h.format_linked;
              good =
                  is_format-IsFormat 25 w "MyaXOS %s> " refl (omega (arith, narrow)) (omega arith);
              steady = λ m e. refl;
              suits = (h.directory, tt);
            },
            tt,
          )
          (record {
            console = h.console;
            shows = h.shows;
            colour = refl;
            place = h.place;
            agree = λ y k. refl;
          }) in
      let (out, r, e) = plays in
      let text = prompt-Renders (s.console.mem) path dir out there r in
      (
        c,
        rw run refl,
        (
          after.console,
          subst (λ p. Shows c (p.1))
              (e
                ∙ ap
                    (λ l. (
                      s.console.attrib,
                      type_text (s.console.attrib) (blank (s.console.attrib)) l t,
                    ))
                    text)
              after.shows,
          after.colour ∙ ap (λ p. p.0) e,
          after.place ∙ sym h.place,
        ),
        after.agree,
      )
