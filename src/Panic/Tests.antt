-- ===== src/Panic/Tests.antt =====
-- A panic on a small screen, and the theorems there.
use trs.Common.{ℕ, ◌≤◌, ◌<◌, ◌≡◌, refl, arith, false, true, List, [], ◌∷◌, length, none, some}
use trs.Common.Texts.{codes}
use trs.Display.{Font, Display, dsp_print}
use trs.Display.Screen.{IsFitting, Draws}
use trs.Display.Number.{read_decimal, AreDigits}
use trs.Panic.{Machine, halted, out_dec, out_loop, out_digits}
use trs.Panic.Number.{out_dec_lem}
use trs.Panic.Halt.{Entry, panic, failure, enter, enter_lem}

abbrev tiny_font : Font
tiny_font = record {
  headersize = 32;
  length = 256;
  charsize = 2;
  height = 2;
  width = 8;
  bytes = λ a. 170;
}

abbrev screen : Display
screen = record {
  font = tiny_font;
  fb = record {
    base = 4096;
    size = 4096;
    width = 32;
    height = 32;
    pitch = 128;
    bpp = 32;
    rmask = 0xff0000;
    gmask = 0xff00;
    bmask = 0xff;
    reserved_mask = 0;
  };
  mem = λ a. 0;
  x = 0;
  y = 0;
  fg = 0xffffff;
  bg = 0;
}

abbrev running : Machine
running = record { in_panic = false; interrupts = true; cr2 = 0; display = screen }

fitting : IsFitting screen.font screen.fb
fitting = record { lines = omega arith; size = omega arith; tall = omega arith }

no_number : out_digits 0 ≡ b'0' ∷ []
unfolding out_loop
no_number = refl

two_digits : out_digits 42 ≡ b'4' ∷ b'2' ∷ []
unfolding out_loop
two_digits = refl

out_dec_lem_example :
    (text : List ℕ) × (out_dec 42 screen ≡ dsp_print text screen)
    × AreDigits text
    × (read_decimal 0 text ≡ 42)
    × (0 < length text)
    × (length text ≤ 20)
out_dec_lem_example = out_dec_lem 42 screen (omega arith)

abbrev out_of_memory : Entry
out_of_memory = panic (some (codes "no memory")) (some (codes "memory_paging.c")) 77

abbrev broken : Entry
broken = failure none none 3

enter_lem_example :
    (last : Machine) × (enter out_of_memory running ≡ halted last)
    × (enter broken last ≡ halted last)
    × (last.in_panic ≡ true)
    × (last.interrupts ≡ false)
    × Draws screen last.display
enter_lem_example = enter_lem out_of_memory broken running fitting
