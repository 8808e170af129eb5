-- ===== src/Print/Screen.antt =====
-- `kprintf` types its text on the terminal.
use mya_xos.Base.{
  ℕ, ◌+◌, ◌*◌, ◌<◌, ◌≤◌, ◌≡◌, refl, ap, ◌∙◌, List, [], ◌∷◌, true, false, arith, length, All,
  length-append,
}
use mya_xos.Memory.{Memory, store8, within, CString}
use mya_xos.Str.Text.{CString-unique}
use mya_xos.Str.Compare.{IsText}
use mya_xos.Vga.{Console, blank}
use mya_xos.Vga.Terminal.{Terminal, Shows}
use mya_xos.Vga.Puts.{IsConsole, on_screen, type_text, puts-Shows}
use mya_xos.Print.{escape, printed, store_text, kprintf}
use mya_xos.Print.Numbers.{IsDecimal, IsHexDigit, All-append}
use mya_xos.Print.Pieces.{
  Piece, spell, IsPiece, escaped_text, escape-escaped_text, AreSupplied, Renders, ends, itself,
  escape_of, text_at, low_byte, hexadecimal, decimal, second,
}
use mya_xos.Print.Format.{print_loop-Renders, length-IsNumeral, length-escaped_text}

All-map {ℓ κ} :
    {A : Type ℓ} (P Q : A → Type κ) → ((a : A) → P a → Q a) → (xs : List A) → All P xs → All Q xs
All-map P Q f [] h = h
All-map P Q f (x ∷ xs) h = (f x h.0, All-map P Q f xs h.1)

abbrev IsChar : ℕ → Type 0
IsChar c = (0 < c) × (c < 256)

escape-IsText : (d : ℕ) → IsText (escaped_text d)
unfolding escape
escape-IsText d = rw (← escape-escaped_text d) (ground arith)

hex-IsText : (cs : List ℕ) → All IsHexDigit cs → IsText cs
hex-IsText cs h = All-map IsHexDigit IsChar (λ c d. ground arith) cs h

decimal-IsText : (cs : List ℕ) → IsDecimal cs → IsText cs
decimal-IsText cs h = All-map (λ c. (b'0' ≤ c) × (c ≤ b'9')) IsChar (λ c d. ground arith) cs h

-- A text that is rendered has no NUL.
Renders-IsText :
    {m : Memory} {ps : List Piece} {args out : List ℕ} (buf w : ℕ)
    → Renders m ps args out
    → All IsPiece ps
    → AreSupplied m buf w ps args
    → IsText out
Renders-IsText buf w ends k s = tt
Renders-IsText buf w (itself c r) k s = ((k.0.2, k.0.3), Renders-IsText buf w r k.1 s)
Renders-IsText buf w (escape_of d {out = out} r) k s =
    All-append IsChar (escaped_text d) out (escape-IsText d) (Renders-IsText buf w r k.1 s)
Renders-IsText buf w (text_at a bs {out = out} held text r) k s =
    All-append IsChar bs out text (Renders-IsText buf w r k.1 s.1)
Renders-IsText buf w (low_byte a r) k s =
    ((omega (arith, s.0), omega arith), Renders-IsText buf w r k.1 s.1)
Renders-IsText buf w (hexadecimal a cs {out = out} len reads digits r) k s =
    All-append IsChar cs out (hex-IsText cs digits) (Renders-IsText buf w r k.1 s.1)
Renders-IsText buf w (decimal a cs {out = out} n r) k s =
    All-append IsChar cs out (decimal-IsText cs n.digits) (Renders-IsText buf w r k.1 s.1)
Renders-IsText buf w (second d r) k s = ((k.0.4, k.0.5), Renders-IsText buf w r k.1 s)

-- Each piece adds at most `w` characters.
Renders-length :
    {m : Memory} {ps : List Piece} {args out : List ℕ} (buf w : ℕ)
    → Renders m ps args out
    → All IsPiece ps
    → AreSupplied m buf w ps args
    → 10 ≤ w
    → length out ≤ length ps * w
Renders-length buf w ends k s lo = omega arith
Renders-length buf w (itself c r) k s lo = omega (arith, Renders-length buf w r k.1 s lo)
Renders-length buf w (escape_of d {out = out} r) k s lo = omega (
  arith,
  Renders-length buf w r k.1 s lo,
  length-append (escaped_text d) out,
  length-escaped_text d,
)
Renders-length buf w (text_at a bs {out = out} held text r) k s lo =
    let (bs', held', text', short, apart) = s.0 in
    let same : length bs ≡ length bs' = ap length (CString-unique _ a bs bs' held held') in
    omega (arith, Renders-length buf w r k.1 s.1 lo, length-append bs out, same, short)
Renders-length buf w (low_byte a r) k s lo = omega (arith, Renders-length buf w r k.1 s.1 lo)
Renders-length buf w (hexadecimal a cs {out = out} len reads digits r) k s lo =
    omega (arith, Renders-length buf w r k.1 s.1 lo, length-append cs out, len)
Renders-length buf w (decimal a cs {out = out} n r) k s lo =
    omega
      (arith, Renders-length buf w r k.1 s.1 lo, length-append cs out, length-IsNumeral a cs s.0 n)
Renders-length buf w (second d r) k s lo = omega (arith, Renders-length buf w r k.1 s lo)

-- What the buffer holds once it is filled.
store_text-outside :
    (bs : List ℕ) (m : Memory) (p x : ℕ)
    → within p (length bs + 1) x ≡ false
    → store_text m p bs x ≡ m x
unfolding store_text
store_text-outside [] m p x off = ground arith
store_text-outside (c ∷ cs) m p x off =
    ground (arith, store_text-outside cs (store8 m p c) (p + 1) x)

store_text-CString :
    (bs : List ℕ) (m : Memory) (p : ℕ) → IsText bs → CString (store_text m p bs) p bs
unfolding store_text
store_text-CString [] m p h = ground arith
store_text-CString (c ∷ cs) m p h = (
  ground (arith, store_text-outside cs (store8 m p c) (p + 1) p),
  ground arith,
  store_text-CString cs (store8 m p c) (p + 1) h.1,
)

store_text-Shows :
    (bs : List ℕ) (s : Console) (t : Terminal) (p : ℕ)
    → ((x : ℕ) → p ≤ x → x ≤ p + length bs → on_screen s x ≡ false)
    → Shows s t
    → Shows (record s { mem = store_text s.mem p bs }) t
store_text-Shows bs s t p off v = record {
  cells = λ r k hr hk.
      let x = s.textmemptr + 2 * (r * 80 + k) in
      rw (kept x (ground arith), kept (x + 1) (ground arith)) (v.cells r k hr hk);
  column = v.column;
  line = v.line;
}
  where
    kept : (x : ℕ) → on_screen s x ≡ true → store_text s.mem p bs x ≡ s.mem x
    kept x on = store_text-outside bs s.mem p x (ground (arith, off x))

-- `kprintf` comes to an end where the line is patient, the format is spelled by pieces that its arguments
-- suit, `w` is at least 10 and bounds each text that is an argument, the pieces times `w` stay below the
-- 1024 bytes of the buffer and the fuel reaches, and the buffer stands outside the screen, the format and
-- the texts: the screen then shows the terminal on which the text was typed that the format and its
-- arguments stand for, and only the screen and the buffer have changed; the colours stay.
pub kprintf-Shows :
    (v w fuel buf fmt : ℕ) (ps : List Piece) (args : List ℕ) (s : Console) (t : Terminal)
    → IsConsole v s
    → v ≤ fuel
    → 10 ≤ w
    → length ps * w < 1024
    → length ps * w < fuel
    → length ps + w ≤ fuel
    → CString s.mem fmt (spell ps)
    → ((x : ℕ) → fmt ≤ x → x ≤ fmt + length (spell ps) → within buf 1024 x ≡ false)
    → All IsPiece ps
    → AreSupplied s.mem buf w ps args
    → ((x : ℕ) → buf ≤ x → x < buf + 1024 → on_screen s x ≡ false)
    → Shows s t
    → (s' : Console) × (out : List ℕ) × (kprintf fuel buf fmt args s ≡ printed s')
      × Renders s.mem ps args out
      × Shows s' (type_text s.attrib (blank s.attrib) out t)
      × IsConsole v s'
      × (s'.attrib ≡ s.attrib)
      × (s'.textmemptr ≡ s.textmemptr)
      × ((x : ℕ) → on_screen s x ≡ false → within buf 1024 x ≡ false → s'.mem x ≡ s.mem x)
unfolding kprintf
kprintf-Shows v w fuel buf fmt ps args s t h le lo fits long room held apart k sup off shown =
    let (out, run, r) =
      print_loop-Renders fuel s.mem buf fmt 0 fmt w args [] ps (omega arith) held apart k sup lo
        room (omega arith) in
    let text = Renders-IsText buf w r k sup in
    let short = Renders-length buf w r k sup lo in
    let off' : (x : ℕ) → buf ≤ x → x ≤ buf + length out → on_screen s x ≡ false =
      λ x a b. off x a (omega arith) in
    let filled : Console = record s { mem = store_text s.mem buf out } in
    let (s', run', h', shown', kept) =
      puts-Shows v fuel buf out filled t
        (record {
          on = record { column = h.on.column; row = h.on.row };
          colour = h.colour;
          line = h.line;
        })
        le (omega arith) (All-map IsChar (λ c. c < 256) (λ c d. d.1) out text)
        (store_text-CString out s.mem buf text) off' (store_text-Shows out s t buf off' shown) in
    (
      s',
      out,
      rw (kprintf, run, run') refl,
      r,
      shown',
      h',
      kept.same_attrib,
      kept.same_text,
      λ x a b. kept.same_mem x a ∙ store_text-outside out s.mem buf x (ground arith),
    )
