-- ===== src/Settings/Reload.antt =====
-- What is set is there again after a reload.
use oh_my_terminal.Base.{
  ℕ, suc, ◌-◌, ◌≤◌, ◌≡◌, ◌∙◌, refl, arith, String, String-discrete, Option, none, some, leb, List,
  [], ◌∷◌, if_intro, if◌then◌else◌,
}
use oh_my_terminal.FilesPanel.{Parsed, value}
use oh_my_terminal.Font.{
  FontPreset, font_presets, find_preset, font_size_min, font_size_max, clamp_font_size, detect_font,
  detect_font_size,
}
use oh_my_terminal.Font.Stored.{detect_font-persist_font, detect_font_size-least, detect-persist}
use oh_my_terminal.I18n.{Lang, en, ko, detect_lang, persist_lang}
use oh_my_terminal.Settings.{
  Settings, Storage, Event, toggles, points, escapes, picks_lang, picks_font, decreases, increases,
  opens_stats, set_lang, set_font, choose_preset, on_pointer_down, open_stats, set_font_size,
  decrease, increase, use_menu, step, run, start,
}

detect_lang-persist_lang :
    (to_lower : String → String) (language : String) (l : Lang)
    → detect_lang to_lower language (persist_lang l) ≡ l
unfolding detect_lang persist_lang String-discrete
detect_lang-persist_lang to_lower language en = refl
detect_lang-persist_lang to_lower language ko = refl

module _ (parse_int : String → Parsed) (print : ℕ → String) (to_lower : String → String)
    (language : String) where
  -- What a reload finds is what is shown, and the size is within its limits.
  abbrev pub IsKept : Settings → Type 0
  IsKept s =
      (detect_lang to_lower language s.storage.lang ≡ s.lang)
      × (detect_font s.storage.font ≡ s.font)
      × (detect_font_size parse_int print s.storage.font_size ≡ s.font_size)
      × (font_size_min ≤ s.font_size)
      × (s.font_size ≤ font_size_max)

  start-IsKept : (st : Storage) → IsKept (start parse_int print to_lower language st)
  unfolding start
  start-IsKept st =
      let (least, most) = detect_font_size-least parse_int print st.font_size in
      (refl, refl, refl, least, most)

  set_lang-IsKept : (l : Lang) (s : Settings) → IsKept s → IsKept (set_lang l s)
  unfolding set_lang
  set_lang-IsKept l s (_, font, size, least, most) =
      (detect_lang-persist_lang to_lower language l, font, size, least, most)

  choose_preset-IsKept :
      (o : Option FontPreset) (s : Settings) → IsKept s → IsKept (choose_preset o s)
  unfolding choose_preset set_font
  choose_preset-IsKept none s v = v
  choose_preset-IsKept (some p) s (lang, _, size, least, most) =
      (lang, detect_font-persist_font p.id, size, least, most)

  module _ (back : (n : ℕ) → parse_int (print n) ≡ value n) where
    set_font_size-IsKept :
        (n : ℕ) (s : Settings)
        → font_size_min ≤ n
        → n ≤ font_size_max
        → IsKept s
        → IsKept (set_font_size parse_int print n s)
    unfolding set_font_size clamp_font_size
    set_font_size-IsKept n s least most (lang, font, _, _, _) =
        let found = (detect-persist parse_int print back s.font n none).1 in
        (lang, font, found ∙ omega (arith, least, most), least, most)

    decrease-IsKept : (s : Settings) → IsKept s → IsKept (decrease parse_int print s)
    unfolding decrease
    decrease-IsKept s v =
        if_intro IsKept (leb s.font_size font_size_min) s
          (set_font_size parse_int print (s.font_size - 1) s) (λ _. v)
          (λ e.
            set_font_size-IsKept (s.font_size - 1) s (ground (arith, e)) (ground (arith, v.4)) v)

    increase-IsKept : (s : Settings) → IsKept s → IsKept (increase parse_int print s)
    unfolding increase
    increase-IsKept s v =
        if_intro IsKept (leb font_size_max s.font_size) s
          (set_font_size parse_int print (suc s.font_size) s) (λ _. v)
          (λ e.
            set_font_size-IsKept (suc s.font_size) s (ground (arith, v.3)) (ground (arith, e)) v)

    use_menu-IsKept : (e : Event) (s : Settings) → IsKept s → IsKept (use_menu parse_int print e s)
    unfolding use_menu open_stats
    use_menu-IsKept toggles s v = v
    use_menu-IsKept (points _) s v = v
    use_menu-IsKept escapes s v = v
    use_menu-IsKept (picks_lang next) s v = set_lang-IsKept next s v
    use_menu-IsKept (picks_font id) s v = choose_preset-IsKept (find_preset id font_presets) s v
    use_menu-IsKept decreases s v = decrease-IsKept s v
    use_menu-IsKept increases s v = increase-IsKept s v
    use_menu-IsKept opens_stats s v = v

    open-IsKept :
        (e : Event) (s : Settings)
        → IsKept s
        → IsKept (if s.settings_open then use_menu parse_int print e s else s)
    open-IsKept e s v =
        if_intro IsKept s.settings_open (use_menu parse_int print e s) s
          (λ _. use_menu-IsKept e s v) (λ _. v)

    step-IsKept : (s : Settings) (e : Event) → IsKept s → IsKept (step parse_int print s e)
    unfolding step on_pointer_down
    step-IsKept s toggles v = v
    step-IsKept s (points in_menu) v = v
    step-IsKept s escapes v = v
    step-IsKept s (picks_lang next) v = open-IsKept (picks_lang next) s v
    step-IsKept s (picks_font id) v = open-IsKept (picks_font id) s v
    step-IsKept s decreases v = open-IsKept decreases s v
    step-IsKept s increases v = open-IsKept increases s v
    step-IsKept s opens_stats v = open-IsKept opens_stats s v

    run-IsKept : (es : List Event) (s : Settings) → IsKept s → IsKept (run parse_int print s es)
    unfolding run
    run-IsKept [] s v = v
    run-IsKept (e ∷ es) s v = run-IsKept es (step parse_int print s e) (step-IsKept s e v)

    -- If a printed number is read back as it was: whatever the storage has at the first render, and
    -- whatever the user does with the menu, a reload finds the language, the font and the size that
    -- are shown, and the size is within its limits.
    pub run-start-IsKept :
        (st : Storage) (es : List Event)
        → IsKept (run parse_int print (start parse_int print to_lower language st) es)
    run-start-IsKept st es =
        run-IsKept es (start parse_int print to_lower language st) (start-IsKept st)
