-- ===== src/Tests.antt =====
-- Sample volumes and cards, tests of the definitions on them, and the theorems at concrete inputs.
mod Samples
mod AssetTests
mod BootTests
mod CarTests
mod CardTests
mod CdTests
mod Disc
mod DispatchTests
mod IsoTests
mod OvlTests
mod ImageTests
mod LogoTests
mod McdTests
mod MenuTests
mod SpuTests
mod SaveTests
mod TaskTests
mod JoinTests
mod TimTests
mod VolTests
mod WalkTests
mod PackTests
