-- ===== src/Lib.antt =====
-- Verification of the browser client of Oh My Terminal: the panes of a screen and the sessions that
-- they show, how they are saved and restored, the connection to a session that is made again when it
-- is lost, and the components of the page around them.
--
-- PaneTree (frontend/src/features/split/paneTree.ts): the tree of panes and its operations, pure
--   functions in the source and here. The view of a tree as the list of its panes (PaneTree/Panes) and
--   of its dividers (PaneTree/Ratio) is what the operations are specified by.
-- Json, Layout (layout.ts and useLayout.ts beside it): the layout hook. `LayoutState` has a field for
--   each React state and ref, one for the pending save and one for what the server keeps; each
--   callback of the hook is a function on it, and `Action` and `act` are the calls of the user
--   interface. `persist` sets `save_timer`, `save` and `lose` are its two ends, and `restore` is the
--   effect that runs after a login. Layout/Parse is `parseLayout`, Layout/Focus is about the pane with
--   the focus.
-- SplitView (SplitView.tsx and SessionPicker.tsx beside it): what a pane shows, the terminals that an
--   empty pane offers (SplitView/Offers), and the drag of a divider (SplitView/Drags); both call the
--   functions of Layout.
-- Ws (frontend/src/lib/ws.ts): `connectWs`. `Conn` has the variables of the closure and, beside them,
--   the sockets that it opened and its timeouts, as the browser keeps them; an `Event` is a callback
--   of the browser or a call of the owner, and any sequence of them is a run.
-- Terminal (useTerminal.ts, terminalConnection.ts, terminalFit.ts and terminalKeys.ts in
--   frontend/src/features/split): the terminal of a pane, as a state and the callbacks on it;
--   Terminal/Connection joins what it shows with the runs of Ws.
-- TouchSelect, FilesPanel and MobileInput (terminalTouchSelect.ts, useFilesResize.ts and
--   MobileInputOverlay.tsx beside them): selecting with a finger, the width of the panel of files, and
--   the field and keys of a phone.
--
-- Workspaces (frontend/src/features/workspace/useWorkspaces.ts): the workspaces and their terminals,
--   with a `LayoutState` beside them; a handler is a function of the answer to its request.
-- App (frontend/src/App.tsx): the application, whose state has that of Workspaces, and so that of the
--   Layout, as its fields. App/Selecting is about its terminals, App/Toasts about its notifications.
-- SessionTree (frontend/src/components/SessionTree.tsx): the input that renames a workspace or a
--   terminal, with the calls that it leads to.
-- Api (frontend/src/lib/api.ts, frontend/src/features/auth/auth.ts and
--   frontend/src/features/terminal/terminal.ts): the requests. `fetch` is an argument; what it gives is
--   a response or a failure, and what a request gives its caller is a value or an error.
-- Login (frontend/src/features/auth/LoginPage.tsx), Wizard and Wizard/Picker (WorkspaceWizard.tsx in
--   frontend/src/features/workspace), Editor, FileBrowser and FileTree (FileEditor.tsx,
--   FileBrowser.tsx and FileTree.tsx in frontend/src/features/terminal), Stats (SystemStatsModal.tsx in
--   frontend/src/features/system), Confirm and ModalDialog (ConfirmDialog.tsx and ModalDialog.tsx in
--   frontend/src/components): the state of a component, its handlers, and any sequence of its events
--   and of the answers that come in. Editor/World has the server beside the editor, which reads and
--   writes the file between a request and its answer.
-- Clipboard (terminalClipboard.ts in frontend/src/features/split, and copyText in
--   terminalTouchSelect.ts): how a text is copied that the terminal or a finger has selected.
-- Font (frontend/src/lib/font.ts): the fonts, and the font and size that the storage keeps.
-- Settings (App.tsx and frontend/src/components/SettingsMenu.tsx): the language, the font and its size,
--   what the storage keeps of them by Font and I18n, and the menu that sets them.
-- I18n (frontend/src/i18n/index.ts): the language that is kept, and the texts with placeholders.
--
-- Ids that `newPaneId` draws are arguments of the functions that draw them. A ratio is a value of an
-- ordered type (Base/Number, interface `Reals`), or NaN. Other numbers are natural numbers: lengths
-- and positions in one unit, counted so that none is negative. Where a number may have a fraction it is
-- a count of parts: of a pixel in FilesPanel, and a numerator by a denominator in Stats. Texts that are
-- taken apart are lists of code units. Trees and lists are walked by structural recursion and runs are
-- lists of events, so there is no fuel. A state update of React takes effect at once.
--
-- What the platform does is an argument, with hypotheses where something is relied on: `fetch`,
-- `JSON.parse` and `JSON.stringify`, `Array.prototype.sort`, `localeCompare`, `encodeURIComponent` and
-- `URLSearchParams`, `trim`, `Number.parseInt` and `String`, `atob`, the browser's own moves of the
-- focus and its `HTMLElement`s, and the tables of the locales.
--
-- Not modelled: markup and rendering, so also the components that are little else (Sidebar.tsx,
-- TerminalPane.tsx, icons.tsx and the pages of the wizard) and style sheets; the
-- calls of xterm.js, its themes, and media queries; and the server, which is another program.
mod Base
pub mod PaneTree
pub mod Json
pub mod Layout
pub mod Ws
pub mod Workspaces
pub mod Terminal
pub mod Wizard
pub mod Editor
pub mod Confirm
pub mod FilesPanel
pub mod TouchSelect
pub mod Font
pub mod FileBrowser
pub mod App
pub mod Api
pub mod Login
pub mod FileTree
pub mod SessionTree
pub mod SplitView
pub mod I18n
pub mod Stats
pub mod MobileInput
pub mod ModalDialog
pub mod Clipboard
pub mod Settings
