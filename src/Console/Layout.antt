-- ===== src/Console/Layout.antt =====
-- The shape of the table on the dashboard.
use smart_sensor_network.Prelude.{
  ℕ, zero, suc, ◌+◌, ◌-◌, ◌≤◌, ◌≡◌, refl, Bool, inl, inr, List, [], ◌∷◌, ◌++◌, append_assoc, Bytes,
  codes, length, length-append, length-take, length-replicate, replicate, take, leb, arith, All,
  All-append, Bool-cases, leb→le, leb→gt, ge→ltb,
}
use smart_sensor_network.Monitor.{SystemStats}
use smart_sensor_network.Console.{
  fit_text, system_width, tcp_width, tcp_panel, panel_row, panel_rows, line_at, max_lines,
  log_lines, logs_border, logs_heading,
}

-- A column of at least three characters keeps its width, whatever the text.
pub length-fit_text : (text : Bytes) (width : ℕ) → 3 ≤ width → length (fit_text text width) ≡ width
unfolding fit_text
length-fit_text text width h = elim (Bool-cases (leb (length text) width)) [
  | inl fits ↦
      let le = leb→le _ _ fits in
      rw fits (
        omega (
          arith,
          length-append text (replicate (width - length text) b' '),
          length-replicate {A = ℕ} (width - length text) b' ',
        ))
  | inr long ↦
      let gt = leb→gt _ _ long in
      rw (long, ge→ltb width 3 h)
        (omega (
          arith,
          length-append (take (width - 3) text) (codes "..."),
          length-take (width - 3) text (omega arith),
        ))
]

-- A line of the panel: so many bytes, and a newline behind them.
abbrev pub IsLine : Bytes → Type 0
IsLine l = (body : Bytes) × (l ≡ body ++ (b'\n' ∷ [])) × (length body ≡ 106)

-- The two columns of a row and what stands around them, without the newline.
abbrev row : Bytes → Bytes → Bytes
row a b = codes "| " ++ (a ++ (codes " | " ++ (b ++ codes " |")))

row-newline :
    (a b : Bytes)
    → codes "| " ++ (a ++ (codes " | " ++ (b ++ codes " |\n"))) ≡ row a b ++ (b'\n' ∷ [])
row-newline a b = simp append_assoc

length-row : (a b : Bytes) → length a ≡ 75 → length b ≡ 24 → length (row a b) ≡ 106
length-row a b ha hb =
    omega (arith, length-append a (codes " | " ++ (b ++ codes " |")), length-append b (codes " |"))

panel_row-IsLine : (log_line tcp_line : Bytes) → IsLine (panel_row log_line tcp_line)
unfolding panel_row
panel_row-IsLine log_line tcp_line =
    let left = fit_text log_line system_width in
    let right = fit_text tcp_line tcp_width in
    (
      row left right,
      row-newline left right,
      length-row left right (length-fit_text log_line system_width (omega arith))
          (length-fit_text tcp_line tcp_width (omega arith)),
    )

cut-IsLine : (l : Bytes) → l ≡ take 106 l ++ (b'\n' ∷ []) → length (take 106 l) ≡ 106 → IsLine l
cut-IsLine l e n = (take 106 l, e, n)

panel_rows-IsLine :
    (left i : ℕ) (logs panel : List Bytes) → All IsLine (panel_rows left i logs panel)
unfolding panel_rows
panel_rows-IsLine zero i logs panel = tt
panel_rows-IsLine (suc left) i logs panel =
    (panel_row-IsLine (line_at i logs) (line_at i panel), panel_rows-IsLine left (i + 1) logs panel)

length-panel_rows :
    (left i : ℕ) (logs panel : List Bytes) → length (panel_rows left i logs panel) ≡ left
unfolding panel_rows
length-panel_rows zero i logs panel = refl
length-panel_rows (suc left) i logs panel = omega (arith, length-panel_rows left (i + 1) logs panel)

-- With at most 15 logs, whatever is in them and in the last command, and whatever the statistics: every line
-- of the panel of logs is 106 bytes and a newline behind them, and there are at least 11 and at
-- most 15 rows between the heading of three lines and the border. A newline within a log or the
-- command counts as one of the 106 bytes.
pub log_lines_shape :
    (logs : List Bytes) (connected : Bool) (last_command : Bytes) (stats : SystemStats)
    → length logs ≤ 15
    → let lines = log_lines logs connected last_command stats in
      All IsLine lines × (15 ≤ length lines) × (length lines ≤ 19)
unfolding log_lines
log_lines_shape logs connected last_command stats h =
    let panel = tcp_panel connected last_command stats in
    let n : ℕ = max_lines logs panel in
    let rows = panel_rows n 0 logs panel in
    let size : length (rows ++ (logs_border ∷ [])) ≡ n + 1 =
      omega (arith, length-append rows (logs_border ∷ []), length-panel_rows n 0 logs panel) in
    let most : (11 ≤ n) × (n ≤ 15) = ground arith in
    (
      All-append IsLine logs_heading (rows ++ (logs_border ∷ []))
          (cut-IsLine _ refl refl, (cut-IsLine _ refl refl, (cut-IsLine _ refl refl, tt)))
          (All-append IsLine rows (logs_border ∷ []) (panel_rows-IsLine n 0 logs panel)
            (cut-IsLine logs_border refl refl, tt)),
      omega (arith, size, most.0),
      omega (arith, size, most.1),
    )
