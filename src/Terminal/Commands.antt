-- ===== src/Terminal/Commands.antt =====
-- terminal/tmain.c and terminal/comands.c: the commands, by the library's calls of the kernel.
pub mod Change
use trs.Common.{
  ℕ, zero, suc, ◌+◌, ◌-◌, Bool, true, false, not, ◌&&◌, ◌||◌, ◌==◌, if◌then◌else◌, List, [], ◌∷◌,
  Option, none, some, ◌>>=◌, nonzero, has_bits, ℤ, pos, negsuc,
}
use trs.Common.Memory.{Mem, store, store_list}
use trs.Common.Texts.{codes}
use trs.Libc.Memory.{memset}
use trs.Libc.Text.{strcmp, strcpy, strcat}
use trs.Libc.System.{
  printf, scanf, cli_clear, set_color, set_crsr, opendir, readdir, closedir, attr_dir, attr_offset,
}
use trs.Fat32.{FatDir, is_ok}
use trs.Sys.{Sys, DirInfo}
use trs.Libc.Colors.{red, peach, sapphire, blue, yantar, term_bg}
use trs.Terminal.{Image, args_loop, cd}

-- Where the locals stand: `path`, `dir` and `info`, the `inf` of `readdir`, and `command`.
pub record Frame : Type 0 where
  pub path : ℕ
  pub dir : ℕ
  pub info : ℕ
  pub inf : ℕ
  pub command : ℕ

abbrev pub statue : List (List ℕ)
statue =
    codes "    %%%"
    ∷ codes "   ====="
    ∷ codes "  &%&%%%&"
    ∷ codes "  %& < <% "
    ∷ codes "   &\\__/"
    ∷ codes "    \\ |____"
    ∷ codes "   .', ,  ()"
    ∷ codes "  / -.  _)| "
    ∷ codes " |_(_.    |"
    ∷ codes " '-'\\  )  |"
    ∷ codes " trs )    |"
    ∷ codes "    /  .  )."
    ∷ codes "   /    _. |"
    ∷ codes " /'---':.-'|"
    ∷ codes "(__.' /    /"
    ∷ codes " \\   ( /  /"
    ∷ codes "  \\ /  _  | "
    ∷ codes "   \\  |  '|"
    ∷ codes "   | . \\  |"
    ∷ codes "   |(     | "
    ∷ codes "   |  \\ \\ |"
    ∷ codes "    \\  )\\ |"
    ∷ codes "   __)/ / \\"
    ∷ codes "--\"--(_.Ooo'----"
    ∷ []

-- `comand_name` and `comand_disc`
abbrev pub described : List (List ℕ × List ℕ)
described =
    (codes "help", codes "show this text\n")
    ∷ (codes "view", codes "show represent\n")
    ∷ (codes "pwd", codes "print work directory\n")
    ∷ (codes "clr", codes "clear console\n")
    ∷ (codes "wh", codes "what`s here - info abot current directory\n")
    ∷ []

-- The branches of `command_parser`.
pub data Command : Type 0 where
  view_command : Command
  clr_command : Command
  pwd_command : Command
  wh_command : Command
  cd_command : Command
  help_command : Command
  unknown_command : Command

module _ {D F : Type 0} (lib : FatDir D F DirInfo) (text_at : Mem → ℕ → List ℕ) (turns : ℕ)
    (image : Image) (frame : Frame) where
  abbrev pub say : List ℕ → Sys D F → Option (Sys D F)
  say text s = printf lib text_at (image.literal text) s

  abbrev pub colored : ℕ → ℕ → Sys D F → Option (Sys D F)
  colored fg bg s = set_color lib text_at fg bg s

  unfoldable pub view_loop : List (List ℕ) → Sys D F → Option (Sys D F)
  view_loop [] s = some s
  view_loop (line ∷ lines) s0 = do
    s1 ← set_crsr lib text_at 55 0 s0
    s2 ← colored red term_bg s1
    s3 ← say line s2
    s4 ← say (codes "\n") s3
    view_loop lines s4

  unfoldable pub view : Sys D F → Option (Sys D F)
  view s0 = do
    s1 ← cli_clear lib text_at s0
    s2 ← view_loop statue s1
    s3 ←
        say
          (codes
            "==============================================================================================================================")
          s2
    colored 0xFFBF00 0x181513 s3

  -- The loop over the entries, for so many at most.
  unfoldable pub wh_loop : ℕ → Sys D F → Option (Sys D F)
  wh_loop zero s = none
  wh_loop (suc left) s = readdir lib text_at turns frame.inf frame.dir frame.info s >>= λ r.
      let t = r.1 in
      let shown =
        colored (if has_bits (t.mem (frame.info + attr_offset)) attr_dir then blue else peach)
          term_bg t
        >>= λ s1. say (codes "\n\t") s1 >>= λ s2.
            printf lib text_at frame.info s2 >>= λ s3. wh_loop left s3 in
      if is_ok r.0 then shown else some t

  unfoldable pub wh : ℕ → Sys D F → Option (ℤ × Sys D F)
  wh current s = opendir lib text_at frame.dir current s >>= λ r.
      let listed = wh_loop turns r.1 >>= λ s1. colored yantar term_bg s1 >>= λ s2.
      closedir lib text_at frame.dir s2 >>= λ c. some (pos 0, c.1) in
      let failed = say (codes "wh: cannot open directory\n") r.1 >>= λ s1. some (negsuc 0, s1) in
      if is_ok r.0 then listed else failed

  unfoldable pub help_loop : List (List ℕ × List ℕ) → Sys D F → Option (Sys D F)
  help_loop [] s = some s
  help_loop (c ∷ cs) s0 = do
    s1 ← say (codes "- ") s0
    s2 ← say c.0 s1
    s3 ← say (codes "\t # ") s2
    s4 ← say c.1 s3
    help_loop cs s4

  unfoldable pub help : Sys D F → Option (Sys D F)
  help s = do
    s1 ←
        say
          (codes
            "\n>> W3lc0m3 t0 t3rm h3lp <<\n------------------------------------------------------\n")
          s
    help_loop described s1

  -- `strcmp(argv[0], "...") == 0`
  abbrev pub named : Mem → ℕ → List ℕ → Option Bool
  named m name text = strcmp turns m name (image.literal text) >>= λ order. some (is_ok order)

  unfoldable pub command_of : Mem → ℕ → Option Command
  command_of m name = named m name (codes "view") >>= λ view.
      if view
      then some view_command
      else (named m name (codes "clr") >>= λ clr.
          if clr
          then some clr_command
          else (named m name (codes "pwd") >>= λ pwd.
              if pwd
              then some pwd_command
              else (named m name (codes "wh") >>= λ wh.
                  if wh
                  then some wh_command
                  else (named m name (codes "cd") >>= λ cd.
                      if cd
                      then some cd_command
                      else (named m name (codes "help") >>= λ help.
                          if help then some help_command else some unknown_command)))))

  abbrev pub alone : List ℕ → (Sys D F → Option (Sys D F)) → Sys D F → Option (Sys D F)
  alone [] command s = command s
  alone (a ∷ args) command s = say (codes "t3rm: too many arguments") s

  unfoldable pub pwd : Sys D F → Option (Sys D F)
  pwd s0 = do
    s1 ← colored sapphire term_bg s0
    s2 ← say (codes "\n\t") s1
    s3 ← printf lib text_at image.current s2
    colored yantar term_bg s3

  abbrev pub first_or : ℕ → List ℕ → ℕ
  first_or a [] = a
  first_or a (b ∷ bs) = b

  -- `char path[128] = "/dsk/";` and what is appended to it.
  unfoldable pub wh_branch : List ℕ → Sys D F → Option (Sys D F)
  wh_branch args s =
      let path = store_list (memset s.mem frame.path 0 128) frame.path (codes "/dsk/") in
      strcat turns path frame.path (first_or image.current args) >>= λ r.
      wh frame.path (record s { mem = r.0 }) >>= λ done. some done.1

  unfoldable pub cd_branch : List ℕ → Sys D F → Option (Sys D F)
  cd_branch [] s = strcpy turns s.mem image.current (image.literal (codes "space/user")) >>= λ r.
      some (record s { mem = r.0 })
  cd_branch (trgt ∷ args) s = cd turns image trgt s.mem >>= λ r.
      let moved : Sys D F = record s { mem = r.0 } in
      let told = say (codes "t3rm: path too long") moved in if r.1 then told else some moved

  unfoldable pub run_command : Command → List ℕ → Sys D F → Option (Sys D F)
  run_command view_command args s = alone args view s
  run_command clr_command args s = alone args (cli_clear lib text_at) s
  run_command pwd_command args s = alone args pwd s
  run_command wh_command args s = wh_branch args s
  run_command cd_command args s = cd_branch args s
  run_command help_command args s = alone args (λ t. say (codes "\n") t >>= λ u. help u) s
  run_command unknown_command args s = say (codes "\nt3rm: unknown command") s

  abbrev pub run_words : List ℕ → Sys D F → Option (Sys D F)
  run_words [] s = some s
  run_words (name ∷ args) s = command_of s.mem name >>= λ c. run_command c args s

  unfoldable pub command_parser : ℕ → Sys D F → Option (Sys D F)
  command_parser command s =
      let parsed =
        args_loop 16 turns s.mem command [] >>= λ r. run_words r.1 (record s { mem = r.0 }) in
      if command == 0 || s.mem command == 0 then some s else parsed

  -- A turn of the loop of `main`, with the keys that are typed in it.
  unfoldable pub main_turn : List ℕ → Sys D F → Option (Sys D F)
  main_turn keys s0 = do
    s1 ← printf lib text_at image.current s0
    s2 ← say (codes " * ") s1
    r ← scanf lib text_at keys frame.command 256 s2
    s3 ← command_parser frame.command r.1
    say (codes "\n") s3

  unfoldable pub main_loop : List (List ℕ) → Sys D F → Option (Sys D F)
  main_loop [] s = some s
  main_loop (keys ∷ lines) s = do main_loop lines (← main_turn keys s)

  unfoldable pub main : List (List ℕ) → Sys D F → Option (Sys D F)
  main lines s0 = do
    s1 ← say (codes ">> ts3zaR t3rm1nal has start3d <<\n") s0
    s2 ← say (codes "  -----------------------------\n") s1
    s3 ← say (codes ">>> W3lc0m3 t0 TRS || Y0u ar3 b3st t0day <3\n\n\n") s2
    main_loop lines s3
