-- ===== src/Status.antt =====
-- main/jlp/status_overlay.{h,cpp} and set_visible() of main/jlp/mic_overlay.cpp. Texts are bytes; `udec`
-- prints an unsigned number as "%u" does.
use espos_p4_cockpit.Prelude.{
  ℕ, ◌+◌, ◌-◌, ◌*◌, ◌/◌, ◌%◌, ◌^◌, String, Bool, true, false, not, ◌&&◌, ◌||◌, Option, none, some,
  List, [], ◌∷◌, ◌++◌, ltb, ◌==◌, if◌then◌else◌, or_else, take, Bytes, codes,
}
pub mod Strip

abbrev pub strip_height : ℕ
strip_height = 28

-- `made` tells whether init() has run; `content_y` and `content_h` are the place of `content_root_`.
pub record StatusOverlay : Type 0 where
  pub made : Bool
  pub lbl_host : Bytes
  pub lbl_wifi : Bytes
  pub lbl_sk : Bytes
  pub lbl_n2k : Bytes
  pub lbl_sys : Bytes
  pub sk_server : Bytes
  pub lost_hidden : Bool
  pub lost_text : Bytes
  pub visible : Bool
  pub strip_hidden : Bool
  pub content_y : ℕ
  pub content_h : ℕ

abbrev pub lost : Bytes
lost = codes "Signal K connection lost"

-- `s ? s : "?"`.
abbrev pub or_unknown : Option Bytes → Bytes
or_unknown s = or_else s (codes "?")

-- init() on a screen of `ver_res` lines.
unfoldable pub init_status : ℕ → StatusOverlay → StatusOverlay
init_status ver_res s = record s {
  made = true;
  lbl_host = codes "host:?";
  lbl_wifi = codes "wifi:?";
  lbl_sk = codes "sk:?";
  lbl_n2k = codes "n2k:?";
  lbl_sys = codes "up 0s heap ?";
  lost_hidden = true;
  lost_text = lost;
  strip_hidden = false;
  content_y = strip_height;
  content_h = ver_res - strip_height;
}

abbrev pub set_hostname : Option Bytes → StatusOverlay → StatusOverlay
set_hostname name s =
    if not s.made then s else record s { lbl_host = or_else name (codes "host:?") }

abbrev pub set_wifi : Option Bytes → StatusOverlay → StatusOverlay
set_wifi line s = if not s.made then s else record s { lbl_wifi = codes "wifi:" ++ or_unknown line }

abbrev pub set_sk : Option Bytes → StatusOverlay → StatusOverlay
set_sk line s = if not s.made then s else record s { lbl_sk = codes "sk:" ++ or_unknown line }

abbrev pub show_sk_lost : StatusOverlay → StatusOverlay
show_sk_lost s = if not s.made then s else record s {
  lost_text = elim s.sk_server [ [] ↦ lost | c ∷ cs ↦ lost ++ (codes " - " ++ (c ∷ cs)) ];
  lost_hidden = false;
}

abbrev pub hide_sk_lost : StatusOverlay → StatusOverlay
hide_sk_lost s = if not s.made then s else record s { lost_hidden = true }

unfoldable pub set_visible : ℕ → Bool → StatusOverlay → StatusOverlay
set_visible ver_res visible s =
    let asked = record s { visible = visible } in
    if (visible && s.visible) || (not visible && not s.visible)
    then s
    else if not s.made
    then asked
    else if visible
    then record asked {
      strip_hidden = false;
      content_h = ver_res - strip_height;
      content_y = strip_height;
    }
    else record asked { strip_hidden = true; content_h = ver_res; content_y = 0 }

module _ (udec : ℕ → Bytes) where
  -- snprintf() into the 40 bytes of `sk_server_`.
  abbrev pub set_sk_server : Option Bytes → ℕ → StatusOverlay → StatusOverlay
  set_sk_server host port s = record s {
    sk_server = take 39 (or_unknown host ++ (codes ":" ++ udec port));
  }

  -- `none` stands for a negative number of seconds.
  abbrev pub set_n2k : Option ℕ → ℕ → StatusOverlay → StatusOverlay
  set_n2k rx_idle clients s = if not s.made then s else record s {
    lbl_n2k = elim rx_idle [
      | none ↦ codes "n2k:- cl:" ++ udec clients
      | some n ↦ codes "n2k:" ++ (udec n ++ (codes "s cl:" ++ udec clients))
    ];
  }

  abbrev pub set_uptime_heap : ℕ → ℕ → StatusOverlay → StatusOverlay
  set_uptime_heap uptime free_heap s = if not s.made then s else record s {
    lbl_sys =
        codes "up " ++ (udec uptime ++ (codes "s heap " ++ (udec (free_heap / 1024) ++ codes "K")));
  }

-- MicOverlay after its init(): the badge, whether it is in front, and the colour of its ring.
pub record MicOverlay : Type 0 where
  pub hidden : Bool
  pub visible : Bool
  pub pulse : ℕ
  pub ring : ℕ

unfoldable pub set_mic_visible : Bool → MicOverlay → MicOverlay
set_mic_visible on s =
    let changed = (on && not s.visible) || (not on && s.visible) in
    let s₁ = if changed then record s { hidden = not on; visible = on; pulse = 0 } else s in
    let pulse = (s₁.pulse + 1) % 256 % 20 in
    if not s₁.visible
    then s₁
    else record s₁ { pulse = pulse; ring = if ltb pulse 10 then 0x9ed0ff else 0x2b6cb0 }
