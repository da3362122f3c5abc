-- ===== src/ScreenModel.antt =====
-- src/screen_model.rs: what the recorder takes from an application's alternate screen. `vt100` is a
-- parameter; a row of text is a `String`, as its scalar values.
pub mod Lead
pub mod NewRows
pub mod Model
