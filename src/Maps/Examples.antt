-- ===== src/Maps/Examples.antt =====
-- A line of /proc/self/maps of an image, for the scans of cpp/xhook/xh_core.c and xh_util.c.
use art_hook.Base.{◌≡◌, refl, some, arith, [], ◌∷◌}
use art_hook.Maps.{scan_mapping, scan_region}
use art_hook.Maps.Print.{Line, IsPrinted, print_line, perm_of}
use art_hook.Maps.Print.Laws.{scan-print_line}

-- "00010000-0001f000 r-xp 00000000 fd:01 12 /x"
abbrev line : Line
line = record {
  start_width = 7;
  start = 0x10000;
  end_width = 7;
  end = 0x1f000;
  read = b'r';
  write = b'-';
  exec = b'x';
  private = b'p';
  offset_width = 7;
  offset = 0;
  major_width = 1;
  major = 0xfd;
  minor_width = 1;
  minor = 1;
  first_digit = b'1';
  digits = b'2' ∷ [];
  tail = 0x20 ∷ 0x2f ∷ b'x' ∷ [];
}

line-IsPrinted : IsPrinted line
line-IsPrinted = record {
  start_fits = (omega arith, omega arith);
  end_fits = (omega arith, omega arith);
  offset_fits = (omega arith, omega arith);
  major_fits = (omega arith, omega arith);
  minor_fits = (omega arith, omega arith);
  perms = (refl, refl, refl, refl);
  numbered = (refl, (refl, tt));
  ended = refl;
}

scan-print_line_example :
    (scan_mapping (print_line line)
      ≡ some (record {
        base_addr = 0x10000;
        perm = perm_of line;
        offset = 0;
        tail = some (0x20 ∷ 0x2f ∷ b'x' ∷ []);
      }))
    × (scan_region (print_line line)
        ≡ some (record { start = 0x10000; end = 0x1f000; perm = perm_of line }))
scan-print_line_example = scan-print_line line line-IsPrinted
