-- ===== src/Libc/Colors.antt =====
-- libc/inc/colors.h: the colors that the kernel and the terminal use.
use trs.Common.{ℕ}

abbrev pub red : ℕ
red = 0xf38ba8

abbrev pub peach : ℕ
peach = 0xfab387

abbrev pub sapphire : ℕ
sapphire = 0x74c7ec

abbrev pub blue : ℕ
blue = 0x89b4fa

abbrev pub lavender : ℕ
lavender = 0xb4befe

abbrev pub crust : ℕ
crust = 0x11111b

abbrev pub yantar : ℕ
yantar = 0xFFBF00

abbrev pub term_bg : ℕ
term_bg = 0x181513
