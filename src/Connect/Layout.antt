-- ===== src/Connect/Layout.antt =====
-- src/connect.rs and src/rt.rs: the IOCRs that a connect asks for are laid out as those that the controller uses.
use profinet_rs.Prelude.{ℕ}
use profinet_rs.Rt.Config.{IocrConfig, build_iocr_configs}
use profinet_rs.Connect.{IocrSetup}

module _ (setup : IocrSetup) (input_frame_id output_frame_id : ℕ) where
  -- The layout that the controller works with once it is connected.
  abbrev pub used_layout : IocrConfig × IocrConfig
  used_layout =
      build_iocr_configs setup.io_slots input_frame_id output_frame_id setup.send_clock_factor
        setup.reduction_ratio setup.watchdog_factor
